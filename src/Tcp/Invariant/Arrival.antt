-- ===== src/Tcp/Invariant/Arrival.antt =====
-- A segment keeps the invariant of pkg/tcp.
use go_network.Base.{ℕ, arith, List, [], Bool, true, false, none, IsU16, IsU32}
use go_network.Errors.{connection_reset, connection_closed}
use go_network.Udp.Endpoint.{Endpoint}
use go_network.Tcp.ControlFlag
use go_network.Tcp.Pcb.{
  PcbState, listen, syn_sent, syn_received, established, fin_wait1, fin_wait2, close_wait, closing,
  last_ack, time_wait, closed, Machine, Env, trigger_no, trigger_open, trigger_close,
  trigger_receive, transition,
}
use go_network.Tcp.Queue.{queue_ack, signal_cmd, signal_err}
use go_network.Tcp.Output.{tx_helper_tcp}
use go_network.Tcp.Segment.{Segment, next, tx_bare}
use go_network.Tcp.Handshake.{
  arrives_closed, accept_syn, arrives_listen, note_syn, establish, syn_sent_syn, arrives_syn_sent,
}
use go_network.Tcp.Synchronized.{
  check_seq, reset_error, check_rst, check_syn, update_window, take_ack, restart_timer, ack_of_fin,
  ack_common, ack_by_state, check_ack, check_urg, store_text, take_text, check_text, fin_by_state,
  past_fin, take_fin, check_fin, arrives_synchronized,
}
use go_network.Tcp.Arrives.{arrives_in, segment_arrives}
use go_network.Tcp.Flow.{OnFlow, bind-OnFlow, finish-OnFlow}
use go_network.Tcp.Invariant.{
  IsSound, tx_helper_tcp-IsSound, queue_ack-IsSound, signal_cmd-IsSound, signal_err-IsSound,
}

-- The words of a header are in range.
pub record IsSegment (seg : Segment) : Type 0 where
  pub seq : IsU32 seg.seq
  pub ack : IsU32 seg.ack
  pub wnd : IsU16 seg.wnd
  pub up : IsU16 seg.up

-- A reply with no text.
abbrev replied : {W : Type 0} ⦃env : Env W⦄ → ℕ → Machine W → Machine W
replied flag m = (tx_helper_tcp flag [] trigger_no none m).0

module _ {W : Type 0} ⦃env : Env W⦄ where
  abbrev Sound : Machine W → Type 0
  Sound m = IsSound m.pcb

  replied-IsSound : (flag : ℕ) (m : Machine W) → IsSound m.pcb → IsSound (replied flag m).pcb
  replied-IsSound flag m s = tx_helper_tcp-IsSound flag [] trigger_no none m tt s

  transition-IsSound : (t : PcbState) (m : Machine W) → IsSound m.pcb → IsSound (transition t m).pcb
  transition-IsSound t m s = ground arith

  early-IsSound :
      (seg : Segment) (flag : ℕ) (m : Machine W)
      → IsSound m.pcb
      → OnFlow Sound (check_seq seg flag m)
  unfolding check_seq
  early-IsSound seg flag m s = ground (arith, replied-IsSound ControlFlag.ack m)

  rst-IsSound : (flag : ℕ) (m : Machine W) → IsSound m.pcb → OnFlow Sound (check_rst flag m)
  unfolding check_rst
  rst-IsSound flag m s = ground (
    arith,
    transition-IsSound closed (signal_err (reset_error m.pcb.state) m),
    signal_err-IsSound (reset_error m.pcb.state) m,
  )

  syn-IsSound : (flag : ℕ) (m : Machine W) → IsSound m.pcb → OnFlow Sound (check_syn flag m)
  unfolding check_syn
  syn-IsSound flag m s =
      let n = transition closed (signal_err connection_reset m) in
      let k : IsSound n.pcb =
        transition-IsSound closed (signal_err connection_reset m)
          (signal_err-IsSound connection_reset m s) in
      ground (arith, replied-IsSound ControlFlag.rst n k)

  window-IsSound :
      (seg : Segment) (m : Machine W)
      → IsSegment seg
      → IsSound m.pcb
      → IsSound (update_window seg m).pcb
  unfolding update_window
  window-IsSound seg m h s = ground arith

  take_ack-IsSound :
      (seg : Segment) (m : Machine W)
      → IsSegment seg
      → IsSound m.pcb
      → OnFlow Sound (take_ack seg m)
  unfolding take_ack
  take_ack-IsSound seg m h s =
      let n = record m { pcb = record m.pcb { snd = record m.pcb.snd { una = seg.ack } } } in
      let k : IsSound n.pcb = ground arith in
      ground (
        arith,
        window-IsSound seg (queue_ack n) h (queue_ack-IsSound n k),
        replied-IsSound ControlFlag.ack m s,
      )

  restart-IsSound : (m : Machine W) → IsSound m.pcb → IsSound (restart_timer m).pcb
  unfolding restart_timer
  restart-IsSound m s = ground arith

  ack_of_fin-IsSound :
      (t : PcbState) (seg : Segment) (m : Machine W)
      → IsSound m.pcb
      → IsSound (ack_of_fin t seg m).pcb
  unfolding ack_of_fin
  ack_of_fin-IsSound fin_wait1 seg m s = ground arith
  ack_of_fin-IsSound fin_wait2 seg m s = ground (arith, signal_cmd-IsSound trigger_close m s)
  ack_of_fin-IsSound closing seg m s =
      ground (arith, restart-IsSound (transition time_wait m) (transition-IsSound time_wait m s))
  ack_of_fin-IsSound _ seg m s = s

  ack_common-IsSound :
      (seg : Segment) (m : Machine W)
      → IsSegment seg
      → IsSound m.pcb
      → OnFlow Sound (ack_common seg m)
  unfolding ack_common
  ack_common-IsSound seg m h s =
      bind-OnFlow Sound (take_ack seg m) (λ n. next (ack_of_fin n.pcb.state seg n))
        (take_ack-IsSound seg m h s) (λ n k. ack_of_fin-IsSound n.pcb.state seg n k)

  ack_by_state-IsSound :
      (t : PcbState) (seg : Segment) (flag : ℕ) (m : Machine W)
      → IsSegment seg
      → IsSound m.pcb
      → OnFlow Sound (ack_by_state t seg flag m)
  unfolding ack_by_state tx_bare
  ack_by_state-IsSound syn_received seg flag m h s = ground (
    arith,
    ack_common-IsSound seg (transition established m) h (transition-IsSound established m s),
  )
  ack_by_state-IsSound last_ack seg flag m h s = ground (
    arith,
    transition-IsSound closed (signal_err connection_closed m)
        (signal_err-IsSound connection_closed m s),
  )
  ack_by_state-IsSound time_wait seg flag m h s = ground (arith, restart-IsSound m s)
  ack_by_state-IsSound established seg flag m h s = ack_common-IsSound seg m h s
  ack_by_state-IsSound fin_wait1 seg flag m h s = ack_common-IsSound seg m h s
  ack_by_state-IsSound fin_wait2 seg flag m h s = ack_common-IsSound seg m h s
  ack_by_state-IsSound close_wait seg flag m h s = ack_common-IsSound seg m h s
  ack_by_state-IsSound closing seg flag m h s = ack_common-IsSound seg m h s
  ack_by_state-IsSound _ seg flag m h s = s

  check_ack-IsSound :
      (seg : Segment) (flag : ℕ) (m : Machine W)
      → IsSegment seg
      → IsSound m.pcb
      → OnFlow Sound (check_ack seg flag m)
  unfolding check_ack
  check_ack-IsSound seg flag m h s = ground (arith, ack_by_state-IsSound m.pcb.state seg flag m h s)

  check_urg-IsSound :
      (seg : Segment) (flag : ℕ) (m : Machine W)
      → IsSegment seg
      → IsSound m.pcb
      → OnFlow Sound (check_urg seg flag m)
  unfolding check_urg
  check_urg-IsSound seg flag m h s = ground arith

  take_text-IsSound :
      (seg : Segment) (bytes : List ℕ) (len : ℕ) (m : Machine W)
      → IsSound m.pcb
      → IsSound (take_text seg bytes len m).pcb
  unfolding take_text store_text
  take_text-IsSound seg bytes len m s =
      signal_cmd-IsSound trigger_receive (record m { pcb = store_text seg bytes len m.pcb })
        (ground arith)

  check_text-IsSound :
      (seg : Segment) (bytes : List ℕ) (len : ℕ) (m : Machine W)
      → IsSound m.pcb
      → OnFlow Sound (check_text seg bytes len m)
  unfolding check_text
  check_text-IsSound seg bytes len m s = ground (
    arith,
    replied-IsSound ControlFlag.ack (take_text seg bytes len m)
        (take_text-IsSound seg bytes len m s),
  )

  fin_by_state-IsSound :
      (t : PcbState) (seg : Segment) (m : Machine W)
      → IsSound m.pcb
      → IsSound (fin_by_state t seg m).pcb
  unfolding fin_by_state restart_timer
  fin_by_state-IsSound fin_wait1 seg m s = ground arith
  fin_by_state-IsSound _ seg m s = ground arith

  take_fin-IsSound : (seg : Segment) (m : Machine W) → IsSound m.pcb → IsSound (take_fin seg m).pcb
  unfolding take_fin past_fin
  take_fin-IsSound seg m s =
      let k : IsSound (signal_cmd trigger_receive m).pcb = signal_cmd-IsSound trigger_receive m s in
      fin_by_state-IsSound (past_fin seg m).pcb.state seg (past_fin seg m) (ground arith)

  check_fin-IsSound :
      (seg : Segment) (flag : ℕ) (m : Machine W)
      → IsSound m.pcb
      → OnFlow Sound (check_fin seg flag m)
  unfolding check_fin
  check_fin-IsSound seg flag m s =
      ground (arith, replied-IsSound ControlFlag.ack (take_fin seg m) (take_fin-IsSound seg m s))

  synchronized-IsSound :
      (seg : Segment) (flag : ℕ) (bytes : List ℕ) (len : ℕ) (m : Machine W)
      → IsSegment seg
      → IsSound m.pcb
      → IsSound (arrives_synchronized seg flag bytes len m).0.pcb
  unfolding arrives_synchronized
  synchronized-IsSound seg flag bytes len m h s = finish-OnFlow Sound _ (
      bind-OnFlow Sound _ (check_fin seg flag)
        (bind-OnFlow Sound _ (check_text seg bytes len)
          (bind-OnFlow Sound _ (check_urg seg flag)
            (bind-OnFlow Sound _ (check_ack seg flag)
              (bind-OnFlow Sound _ (check_syn flag)
                (bind-OnFlow Sound _ (check_rst flag) (early-IsSound seg flag m s)
                  (λ n k. rst-IsSound flag n k))
                (λ n k. syn-IsSound flag n k))
              (λ n k. check_ack-IsSound seg flag n h k))
            (λ n k. check_urg-IsSound seg flag n h k))
          (λ n k. check_text-IsSound seg bytes len n k))
        (λ n k. check_fin-IsSound seg flag n k))

  note_syn-IsSound :
      (acked : Bool) (seg : Segment) (m : Machine W)
      → IsSegment seg
      → IsSound m.pcb
      → IsSound (note_syn acked seg m).pcb
  unfolding note_syn
  note_syn-IsSound false seg m h s = ground arith
  note_syn-IsSound true seg m h s = queue_ack-IsSound _ (ground arith)

  establish-IsSound :
      (seg : Segment) (m : Machine W)
      → IsSegment seg
      → IsSound m.pcb
      → IsSound (establish seg m).pcb
  unfolding establish
  establish-IsSound seg m h s = signal_cmd-IsSound trigger_open _ (ground arith)

  syn_sent_syn-IsSound :
      (acked : Bool) (seg : Segment) (m : Machine W)
      → IsSegment seg
      → IsSound m.pcb
      → IsSound (syn_sent_syn acked seg m).0.pcb
  unfolding syn_sent_syn
  syn_sent_syn-IsSound acked seg m h s =
      let n = note_syn acked seg m in
      let k : IsSound n.pcb = note_syn-IsSound acked seg m h s in
      ground (
        arith,
        replied-IsSound ControlFlag.ack (establish seg n) (establish-IsSound seg n h k),
        replied-IsSound ControlFlag.syn_ack (transition syn_received n)
            (transition-IsSound syn_received n k),
      )

  module _ (random : (w : W) → IsU32 (env.rand_uint32 w).1) where
    listen-IsSound :
        (seg : Segment) (flag : ℕ) (bytes : List ℕ) (len : ℕ) (foreign : Endpoint) (m : Machine W)
        → IsSegment seg
        → IsSound m.pcb
        → IsSound (arrives_listen seg flag bytes len foreign m).0.pcb
    unfolding arrives_listen tx_bare accept_syn
    listen-IsSound seg flag bytes len foreign m h s =
        let (w, iss) = env.rand_uint32 m.io.world in
        let n : Machine W = record {
          pcb = accept_syn seg bytes len foreign iss m.pcb;
          io = record m.io { world = w };
        } in
        let r : IsU32 iss = random m.io.world in
        let k : IsSound n.pcb = ground arith in
        ground (arith, replied-IsSound ControlFlag.syn_ack n k)

    arrives-IsSound :
        (t : PcbState) (seg : Segment) (flag : ℕ) (bytes : List ℕ) (len : ℕ) (foreign : Endpoint)
        (m : Machine W)
        → IsSegment seg
        → IsSound m.pcb
        → IsSound (arrives_in t seg flag bytes len foreign m).0.pcb
    unfolding arrives_in arrives_closed arrives_syn_sent tx_bare
    arrives-IsSound closed seg flag bytes len foreign m h s = ground arith
    arrives-IsSound listen seg flag bytes len foreign m h s =
        listen-IsSound seg flag bytes len foreign m h s
    arrives-IsSound syn_sent seg flag bytes len foreign m h s = ground (
      arith,
      syn_sent_syn-IsSound true seg m h s,
      syn_sent_syn-IsSound false seg m h s,
      signal_err-IsSound connection_reset m s,
      transition-IsSound closed (signal_err connection_reset m),
    )
    arrives-IsSound _ seg flag bytes len foreign m h s =
        synchronized-IsSound seg flag bytes len m h s

    -- A segment keeps the invariant in every state.
    pub segment_arrives-IsSound :
        (seg : Segment) (flag : ℕ) (bytes : List ℕ) (len : ℕ) (foreign : Endpoint) (m : Machine W)
        → IsSegment seg
        → IsSound m.pcb
        → IsSound (segment_arrives seg flag bytes len foreign m).0.pcb
    unfolding segment_arrives
    segment_arrives-IsSound seg flag bytes len foreign m h s =
        arrives-IsSound m.pcb.state seg flag bytes len foreign m h s
