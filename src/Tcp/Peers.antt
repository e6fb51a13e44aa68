-- ===== src/Tcp/Peers.antt =====
-- Two peers of pkg/tcp: the segment that one handed to ip.TxHandler last arrives at the other.
mod Tests
pub mod Opening
pub mod Handshake
pub mod Established
pub mod Connect
pub mod Delivery
pub mod Text
pub mod Exchange
pub mod Idle
pub mod Stream
pub mod Conversation
pub mod Session
pub mod Closing
pub mod Close
pub mod Release
use go_network.Base.{
  ℕ, List, [], ◌∷◌, ◌≡◌, ◌≤◌, refl, arith, All, length, ltb, leb, if◌then◌else◌, true, false,
  Option, some, none,
}
use go_network.Errors.{Error}
use go_network.Udp.Endpoint.{Endpoint}
use go_network.Tcp.ControlFlag
use go_network.Tcp.ControlFlag.{is_set}
use go_network.Tcp.Header.{Header, header2data, header_size_min}
use go_network.Tcp.Pcb.{Pcb, Machine, Io, Env, Event, transmit, Trigger, Chan, RetxEntry}
use go_network.Tcp.Output.{tx_header, tx_handler, tx_helper_tcp, payload_size_max}
use go_network.Tcp.Queue.{queue_add, new_entry}
use go_network.Tcp.Frames.{Same, tx_helper_tcp-Same}
use go_network.Tcp.Registry.{segment_of}
use go_network.Tcp.Arrives.{segment_arrives}

-- What RxHandler passes to segmentArrives for a header without options.
unfoldable pub arrive_event : {W : Type 0} ⦃env : Env W⦄ → List Event → Machine W → Machine W
unfolding segment_of segment_arrives
arrive_event (transmit src dst hdr bytes ∷ _) m =
    (segment_arrives (segment_of hdr (length bytes)) hdr.flag bytes (length bytes) src m).0
arrive_event _ m = m

-- The last thing that the sender did arrives, if it was a segment.
unfoldable pub arrive_from : {W : Type 0} ⦃env : Env W⦄ → Machine W → Machine W → Machine W
unfolding arrive_event
arrive_from sender m = arrive_event sender.io.trace m

-- ip.TxHandler takes every segment.
abbrev pub Sends : {W : Type 0} → Env W → Type 0
Sends {W = W} env =
    (bytes : List ℕ) (src dst : ℕ) (w : W) → (env.ip_tx_handler bytes src dst w).1 ≡ none

-- The header of a segment of TxHelperTCP.
abbrev pub sent_header : ℕ → ℕ → List ℕ → Pcb → Header
sent_header seq flag bytes p =
    (header2data (tx_header p.local p.foreign seq p.rcv.nxt flag p.rcv.wnd p.rcv.up) bytes
      p.local.addr p.foreign.addr).1

-- The result of TxHelperTCP where the segment is sent.
pub record Sent {W : Type 0} (seq flag : ℕ) (bytes : List ℕ) (m : Machine W)
    (r : Machine W × Option Error) : Type 0 where
  pub good : r.1 ≡ none
  pub same : Same m.pcb r.0.pcb
  pub trace :
      r.0.io.trace
      ≡ transmit m.pcb.local m.pcb.foreign (sent_header seq flag bytes m.pcb) bytes ∷ m.io.trace
  pub queue : m.pcb.retx_queue ≡ [] → All (λ e. e.seq ≡ seq) r.0.pcb.retx_queue

module _ {W : Type 0} ⦃env : Env W⦄ (sends : Sends env) where
  pub tx_helper_tcp-Sent :
      (flag : ℕ) (bytes : List ℕ) (t : Trigger) (ch : Option Chan) (m : Machine W)
      → length bytes ≤ payload_size_max
      → Sent
          (if is_set flag ControlFlag.syn then m.pcb.iss else m.pcb.snd.nxt)
          flag
          bytes
          m
          (tx_helper_tcp flag bytes t ch m)
  unfolding tx_helper_tcp tx_handler queue_add
  tx_helper_tcp-Sent flag bytes t ch m small =
      let seq = if is_set flag ControlFlag.syn then m.pcb.iss else m.pcb.snd.nxt in
      let p = m.pcb in
      let taken =
        sends
          (header2data (tx_header p.local p.foreign seq p.rcv.nxt flag p.rcv.wnd p.rcv.up) bytes
            p.local.addr p.foreign.addr).0
          p.local.addr p.foreign.addr m.io.world in
      record {
        good = ground (arith, taken);
        same = tx_helper_tcp-Same flag bytes t ch m;
        trace = ground (arith, taken);
        queue = λ e. ground (arith, taken, e);
      }
