-- ===== src/Example/UdpEcho.antt =====
-- example/udp/main.go: the echo server, from Open on, over the model of pkg/udp. The datagrams that
-- arrive between two rounds of its loop are handled by other goroutines.
pub mod Answers
pub mod RoundTrip
use go_network.Base.{ℕ, List, [], ◌∷◌, length, ltb, ◌==◌, Bool, true, false, Option, none, some}
use go_network.Errors.{Outcome, returns, blocked, Error, Result, ok, err, panic}
use go_network.Strings.{codes}
use go_network.Ip.Protocol.{Ip, IpEnv}
use go_network.Udp.Endpoint.{Endpoint, str2endpoint}
use go_network.Udp.Pcb.{Pcb, open_pcb, bind, close_pcb, rx_handler, listen, send}

-- `srcAddr`, and its endpoint; main drops the error, with which comes the zero value.
abbrev pub src_addr : List ℕ
src_addr = codes "192.0.2.2:8080"

abbrev pub or_zero : Result Endpoint → Endpoint
or_zero (ok e) = e
or_zero (err _) = record { addr = 0; port = 0 }
or_zero panic = record { addr = 0; port = 0 }

-- The block that a pointer of the list points to.
unfoldable pub block_at : ℕ → List Pcb → Option Pcb
block_at ptr [] = none
block_at ptr (p ∷ ps) = elim (p.ptr == ptr) [ true ↦ some p | false ↦ block_at ptr ps ]

-- What happens in the thirty seconds: a datagram for UDP from an address to an address, or a round.
pub data Event : Type 0 where
  datagram : List ℕ → ℕ → ℕ → Event
  round : Event

module _ {W : Type 0} ⦃env : IpEnv W⦄ where
  -- `soc.Send(data, endpoint)` on the block that soc points to; its error is dropped.
  unfoldable pub reply_on :
      Option Pcb → List ℕ → Endpoint → List Pcb → Ip W → Outcome (List Pcb × Ip W)
  unfolding send
  reply_on none bytes dst pcbs m = returns (pcbs, m)
  reply_on (some soc) bytes dst pcbs m = elim (send soc bytes dst pcbs m) [
    | blocked ↦ blocked
    | returns r ↦ returns (pcbs, r.0)
  ]

  -- What Listen gave is sent back, unless it is empty.
  unfoldable pub echo : ℕ → List Pcb × List ℕ × Endpoint → Ip W → Outcome (List Pcb × Ip W)
  unfolding reply_on block_at
  echo ptr (pcbs, bytes, from) m = elim (ltb 0 (length bytes)) [
    | true ↦ reply_on (block_at ptr pcbs) bytes from pcbs m
    | false ↦ returns (pcbs, m)
  ]

  -- A round of the loop.
  unfoldable pub echo_round : ℕ → List Pcb → Ip W → Outcome (List Pcb × Ip W)
  unfolding listen echo
  echo_round ptr pcbs m = elim (listen ptr false pcbs) [
    | blocked ↦ blocked
    | returns heard ↦ echo ptr heard m
  ]

  unfoldable pub step : ℕ → Event → List Pcb → Ip W → Outcome (List Pcb × Ip W)
  unfolding echo_round rx_handler
  step ptr round pcbs m = echo_round ptr pcbs m
  step ptr (datagram bytes src dst) pcbs m = elim (rx_handler bytes src dst pcbs) [
    | blocked ↦ blocked
    | returns r ↦ returns (r.0, m)
  ]

  -- The loop, until the clock ends it.
  unfoldable pub echo_loop : ℕ → List Event → List Pcb → Ip W → Outcome (List Pcb × Ip W)
  unfolding step
  echo_loop ptr [] pcbs m = returns (pcbs, m)
  echo_loop ptr (e ∷ es) pcbs m = elim (step ptr e pcbs m) [
    | blocked ↦ blocked
    | returns s ↦ echo_loop ptr es s.0 s.1
  ]

  -- main behind Open and Bind: it returns if Bind fails, and otherwise closes the block in the end.
  unfoldable pub serve : ℕ → List Event → List Pcb × Option Error → Ip W → Outcome (List Pcb × Ip W)
  unfolding echo_loop close_pcb
  serve ptr events (pcbs, some e) m = returns (pcbs, m)
  serve ptr events (pcbs, none) m = elim (echo_loop ptr events pcbs m) [
    | blocked ↦ blocked
    | returns s ↦ returns ((close_pcb ptr s.0).0, s.1)
  ]

  unfoldable pub main : ℕ → List Event → List Pcb → Ip W → Outcome (List Pcb × Ip W)
  unfolding str2endpoint open_pcb bind serve
  main ptr events pcbs m =
      serve ptr events (bind ptr (or_zero (str2endpoint src_addr)) (open_pcb ptr pcbs)) m
