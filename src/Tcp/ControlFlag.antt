-- ===== src/Tcp/ControlFlag.antt =====
-- The control bits of pkg/tcp/header.go.
use Prim.Native.Nat.{bit_and}
use go_network.Base.{ℕ, Bool, ltb}

abbrev pub cwr : ℕ
cwr = 128

abbrev pub ece : ℕ
ece = 64

abbrev pub urg : ℕ
urg = 32

abbrev pub ack : ℕ
ack = 16

abbrev pub psh : ℕ
psh = 8

abbrev pub rst : ℕ
rst = 4

abbrev pub syn : ℕ
syn = 2

abbrev pub fin : ℕ
fin = 1

-- `SYN|FIN`, `SYN|ACK`, `RST|ACK` and `ACK|FIN`.
abbrev pub syn_fin : ℕ
syn_fin = 3

abbrev pub syn_ack : ℕ
syn_ack = 18

abbrev pub rst_ack : ℕ
rst_ack = 20

abbrev pub ack_fin : ℕ
ack_fin = 17

unfoldable pub is_set : ℕ → ℕ → Bool
is_set a b = ltb 0 (bit_and a b)
