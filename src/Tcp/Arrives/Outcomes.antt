-- ===== src/Tcp/Arrives/Outcomes.antt =====
-- What single segments do in the synchronized states of pkg/tcp: refusals, resets, text and FIN.
use go_network.Base.{ℕ, ◌≡◌, refl, arith, List, [], ◌∷◌, true, false, none, some, if◌then◌else◌}
use go_network.Udp.Endpoint.{Endpoint}
use go_network.Tcp.ControlFlag
use go_network.Tcp.ControlFlag.{is_set}
use go_network.Tcp.Header.{header2data}
use go_network.Tcp.Pcb.{
  PcbState, listen, syn_sent, closed, Pcb, Machine, Env, Event, transmit, trigger_no, no_rcv_cmd,
  send_if,
}
use go_network.Tcp.Queue.Remove.{notices, signal_err_trace}
use go_network.Tcp.Output.{tx_header, tx_helper_tcp}
use go_network.Tcp.Segment.{Segment, acceptable}
use go_network.Tcp.Synchronized.{
  is_unsynchronized, check_seq, check_rst, reset_error, arrives_synchronized,
}
use go_network.Tcp.Arrives.{arrives_in, segment_arrives}
use go_network.Tcp.Frames.{signal_err-pcb}

-- The segment without text that TxHelperTCP builds for the control block, as the trace records it.
unfoldable pub reply_event : ℕ → ℕ → Pcb → Event
reply_event flag seq p =
    transmit p.local p.foreign
      (header2data (tx_header p.local p.foreign seq p.rcv.nxt flag p.rcv.wnd p.rcv.up) []
        p.local.addr p.foreign.addr).1
      []

module _ {W : Type 0} ⦃env : Env W⦄ where
  -- Outside CLOSED, LISTEN and SYN-SENT the handler takes its default case.
  pub arrives-synchronized :
      (t : PcbState) (seg : Segment) (flag : ℕ) (bytes : List ℕ) (len : ℕ) (foreign : Endpoint)
      (m : Machine W)
      → is_unsynchronized t ≡ false
      → arrives_in t seg flag bytes len foreign m ≡ arrives_synchronized seg flag bytes len m
  unfolding arrives_in
  arrives-synchronized closed seg flag bytes len foreign m h = cc
  arrives-synchronized listen seg flag bytes len foreign m h = cc
  arrives-synchronized syn_sent seg flag bytes len foreign m h = cc
  arrives-synchronized _ seg flag bytes len foreign m h = refl

  -- A bare acknowledgement changes nothing in the control block, and is one segment.
  pub ack_reply :
      (m : Machine W)
      → ((tx_helper_tcp ControlFlag.ack [] trigger_no none m).0.pcb ≡ m.pcb)
        × ((tx_helper_tcp ControlFlag.ack [] trigger_no none m).0.io.trace
            ≡ reply_event ControlFlag.ack m.pcb.snd.nxt m.pcb ∷ m.io.trace)
  unfolding tx_helper_tcp is_set reply_event
  ack_reply m = ground arith

  module _ (seg : Segment) (flag : ℕ) (bytes : List ℕ) (len : ℕ) (foreign : Endpoint)
      (m : Machine W) (late : is_unsynchronized m.pcb.state ≡ false) where
    -- In a synchronized state a segment outside the window leaves the control block as it is. It is
    -- answered by exactly one acknowledgement, or by nothing if it is a reset.
    pub segment_refused :
        acceptable seg m.pcb ≡ false
        → ((segment_arrives seg flag bytes len foreign m).0.pcb ≡ m.pcb)
          × ((segment_arrives seg flag bytes len foreign m).0.io.trace ≡ (
              if is_set flag ControlFlag.rst
              then m.io.trace
              else reply_event ControlFlag.ack m.pcb.snd.nxt m.pcb ∷ m.io.trace))
    unfolding segment_arrives arrives_synchronized check_seq
    segment_refused h =
        rw (arrives-synchronized m.pcb.state seg flag bytes len foreign m late)
          (ground (arith, ack_reply m))

    -- In a synchronized state an acceptable reset closes the connection: the queue is emptied, the
    -- pending RECEIVE is dropped, every waiting channel gets the error once, and nothing is sent.
    pub segment_reset :
        acceptable seg m.pcb ≡ true
        → is_set flag ControlFlag.rst ≡ true
        → let r = segment_arrives seg flag bytes len foreign m in
          let e = reset_error m.pcb.state in
          (r.1 ≡ none)
          × (r.0.pcb ≡ record m.pcb { state = closed; retx_queue = []; rcv_cmd = no_rcv_cmd })
          × (r.0.io.trace
              ≡ (send_if m.pcb.rcv_cmd.err_ch
                  (some e)
                  (record m.io { trace = notices (some e) m.pcb.retx_queue m.io.trace })).trace)
    unfolding segment_arrives arrives_synchronized check_seq check_rst
    segment_reset h k = rw (arrives-synchronized m.pcb.state seg flag bytes len foreign m late) (
        ground (
          arith,
          signal_err-pcb (reset_error m.pcb.state) m,
          signal_err_trace (reset_error m.pcb.state) m,
        ))
