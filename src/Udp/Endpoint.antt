-- ===== src/Udp/Endpoint.antt =====
-- pkg/udp/endpoint.go: an IP address (uint32) with a port (uint16), and its text.
pub mod Text
use go_network.Base.{ℕ, List, [], ◌∷◌, ◌++◌, Bool, ◌==◌, ◌&&◌, Option, none, some, u16}
use go_network.Errors.{Result, ok, err, panic, atoi_syntax, endpoint_syntax}
use go_network.Strings.{split, atoi, format}
use go_network.Ip.Address.{str2addr, addr_string}

pub record Endpoint : Type 0 where
  pub addr : ℕ
  pub port : ℕ

-- `==` on the struct.
abbrev pub same_endpoint : Endpoint → Endpoint → Bool
same_endpoint a b = a.addr == b.addr && a.port == b.port

-- `"%s:%d"`.
unfoldable pub endpoint_string : Endpoint → List ℕ
unfolding addr_string format
endpoint_string e = addr_string e.addr ++ (b':' ∷ format e.port)

-- Str2Endpoint behind the address; `uint16(port)` keeps the low bits of any int.
unfoldable pub with_port : Result ℕ → List ℕ → Result Endpoint
unfolding atoi
with_port (err e) text = err e
with_port panic text = panic
with_port (ok addr) text = elim (atoi text) [
  | none ↦ err atoi_syntax
  | some port ↦ ok (record { addr = addr; port = u16 port })
]

-- The two parts that Str2Endpoint wants.
unfoldable pub endpoint_of : List (List ℕ) → Result Endpoint
unfolding str2addr with_port
endpoint_of (addr ∷ port ∷ []) = with_port (str2addr addr) port
endpoint_of _ = err endpoint_syntax

unfoldable pub str2endpoint : List ℕ → Result Endpoint
unfolding split endpoint_of
str2endpoint str = endpoint_of (split b':' str)
