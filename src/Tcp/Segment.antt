-- ===== src/Tcp/Segment.antt =====
-- The segment of pkg/tcp/protocol.go, its acceptance test, and the control flow of its handler.
pub mod Window
use go_network.Base.{
  ℕ, ◌+◌, ◌-◌, List, [], ◌&&◌, ◌||◌, Bool, Option, none, length, get_or, ltb, leb, ◌==◌,
  if◌then◌else◌, u32,
}
use go_network.Errors.{Error}
use go_network.Tcp.Pcb.{Pcb, Machine, Env, buffer_size}
use go_network.Tcp.Output.{tx_handler}

pub record Segment : Type 0 where
  pub seq : ℕ
  pub ack : ℕ
  pub len : ℕ
  pub wnd : ℕ
  pub up : ℕ

-- `copy(rxQueue[off:], bytes)`.
unfoldable pub copy_in : ℕ → List ℕ → (ℕ → ℕ) → ℕ → ℕ
copy_in off bytes a i =
    if leb off i && (ltb i (off + length bytes) && ltb i buffer_size)
    then get_or bytes (i - off) 0
    else a i

-- Where one step of the default case leaves the handler: it returned, or goes on.
pub data Flow (W : Type 0) : Type 0 where
  done : Machine W × Option Error → Flow W
  next : Machine W → Flow W

infixl 5 ◌>>=◌
abbrev pub ◌>>=◌ : {W : Type 0} → Flow W → (Machine W → Flow W) → Flow W
done r >>= f = done r
next m >>= f = f m

-- `return nil` at the end of the handler.
abbrev pub finish : {W : Type 0} → Flow W → Machine W × Option Error
finish (done r) = r
finish (next m) = (m, none)

unfoldable pub in_window : Pcb → ℕ → Bool
in_window p x = leb p.rcv.nxt x && ltb x (u32 (p.rcv.nxt + p.rcv.wnd))

-- `seg.seq + seg.len - 1` on uint32.
abbrev pub last_seq : Segment → ℕ
last_seq seg = u32 (seg.seq + seg.len + 4294967295)

unfoldable pub acceptable : Segment → Pcb → Bool
unfolding in_window
acceptable seg p =
    if p.rcv.wnd == 0
    then seg.len == 0 && seg.seq == p.rcv.nxt
    else (seg.len == 0 && in_window p seg.seq)
      || ((ltb 0 seg.len && in_window p seg.seq) || in_window p (last_seq seg))

module _ {W : Type 0} ⦃env : Env W⦄ where
  -- `TxHandler(pcb.local, pcb.foreign, []byte{}, seq, ack, flag, 0, 0)`.
  unfoldable pub tx_bare : ℕ → ℕ → ℕ → Machine W → Machine W × Option Error
  tx_bare seq ack flag m =
      let (io, e) = tx_handler m.pcb.local m.pcb.foreign [] seq ack flag 0 0 m.io in
      (record m { io = io }, e)
