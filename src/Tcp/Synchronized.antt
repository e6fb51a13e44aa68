-- ===== src/Tcp/Synchronized.antt =====
-- segmentArrives of pkg/tcp/protocol.go in its default case, the synchronized states: one function to
-- a check of the source.
pub mod Text
use go_network.Base.{
  ℕ, ◌+◌, ◌-◌, List, [], ◌&&◌, ◌||◌, Bool, true, false, Option, none, length, ltb, leb, ◌==◌,
  if◌then◌else◌, u16, u32,
}
use go_network.Errors.{Error, connection_reset, connection_refused, connection_closed}
use go_network.Utils.{max}
use go_network.Tcp.ControlFlag
use go_network.Tcp.ControlFlag.{is_set}
use go_network.Tcp.Pcb.{
  PcbState, listen, syn_sent, syn_received, established, fin_wait1, fin_wait2, close_wait, closing,
  last_ack, time_wait, closed, Pcb, Machine, Env, trigger_no, trigger_close, trigger_receive,
  transition,
}
use go_network.Tcp.Queue.{queue_ack, signal_cmd, signal_err}
use go_network.Tcp.Output.{tx_helper_tcp}
use go_network.Tcp.Segment.{Segment, Flow, done, next, ◌>>=◌, finish, acceptable, copy_in, tx_bare}

-- `pcb.rcv.up = utils.Max(pcb.rcv.up, seg.up)`.
abbrev pub raise_urgent : {W : Type 0} → Segment → Machine W → Machine W
raise_urgent seg m = record m {
  pcb = record m.pcb { rcv = record m.pcb.rcv { up = max m.pcb.rcv.up seg.up } };
}

-- Second, the RST bit.
unfoldable pub reset_error : PcbState → Error
reset_error syn_received = connection_refused
reset_error _ = connection_reset

-- The states in which text is received.
abbrev pub receives_text : PcbState → Bool
receives_text established = true
receives_text fin_wait1 = true
receives_text fin_wait2 = true
receives_text _ = false

-- The assignments of the seventh check.
unfoldable pub store_text : Segment → List ℕ → ℕ → Pcb → Pcb
unfolding copy_in
store_text seg bytes data_len p = record p {
  rx_queue = copy_in p.rx_len bytes p.rx_queue;
  rx_len = u16 (p.rx_len + u16 data_len);
  rcv = record p.rcv {
    nxt = u32 (seg.seq + seg.len);
    wnd = u16 (p.rcv.wnd + 65536 - u16 data_len);
  };
}

abbrev pub is_unsynchronized : PcbState → Bool
is_unsynchronized closed = true
is_unsynchronized listen = true
is_unsynchronized syn_sent = true
is_unsynchronized _ = false

module _ {W : Type 0} ⦃env : Env W⦄ where
  -- First, the sequence number.
  unfoldable pub check_seq : Segment → ℕ → Machine W → Flow W
  check_seq seg flag m =
      if acceptable seg m.pcb
      then next m
      else (if is_set flag ControlFlag.rst
          then done (m, none)
          else done (tx_helper_tcp ControlFlag.ack [] trigger_no none m))

  unfoldable pub check_rst : ℕ → Machine W → Flow W
  check_rst flag m =
      if is_set flag ControlFlag.rst
      then done (transition closed (signal_err (reset_error m.pcb.state) m), none)
      else next m

  -- Fourth, the SYN bit.
  unfoldable pub check_syn : ℕ → Machine W → Flow W
  check_syn flag m =
      if is_set flag ControlFlag.syn
      then done (
          tx_helper_tcp ControlFlag.rst [] trigger_no none
            (transition closed (signal_err connection_reset m)))
      else next m

  -- The window is taken over unless the segment is older than the last that changed it.
  unfoldable pub update_window : Segment → Machine W → Machine W
  update_window seg m =
      let p = m.pcb in
      if ltb p.snd.wl1 seg.seq || (p.snd.wl1 == seg.seq && leb p.snd.wl2 seg.ack)
      then record m {
        pcb = record p { snd = record p.snd { wnd = seg.wnd; wl1 = seg.seq; wl2 = seg.ack } };
      }
      else m

  -- The acknowledgement, in the states that share it.
  unfoldable pub take_ack : Segment → Machine W → Flow W
  unfolding update_window
  take_ack seg m =
      let p = m.pcb in
      if ltb p.snd.una seg.ack && leb seg.ack p.snd.nxt
      then next (
          update_window seg
            (queue_ack (record m { pcb = record p { snd = record p.snd { una = seg.ack } } })))
      else (if ltb seg.ack p.snd.una
          then next m
          else (if ltb p.snd.nxt seg.ack
              then done (tx_helper_tcp ControlFlag.ack [] trigger_no none m)
              else next m))

  -- `pcb.lastTxTime = time.Now()`.
  unfoldable pub restart_timer : Machine W → Machine W
  restart_timer m =
      let (w, now) = env.time_now m.io.world in
      record m { pcb = record m.pcb { last_tx_time = now }; io = record m.io { world = w } }

  -- The second switch of the ACK check: whether our FIN is acknowledged.
  unfoldable pub ack_of_fin : PcbState → Segment → Machine W → Machine W
  unfolding restart_timer
  ack_of_fin fin_wait1 seg m = if seg.ack == m.pcb.snd.nxt then transition fin_wait2 m else m
  ack_of_fin fin_wait2 seg m =
      if length m.pcb.retx_queue == 0 then signal_cmd trigger_close m else m
  ack_of_fin closing seg m =
      if seg.ack == m.pcb.snd.nxt then restart_timer (transition time_wait m) else m
  ack_of_fin _ seg m = m

  unfoldable pub ack_common : Segment → Machine W → Flow W
  unfolding take_ack ack_of_fin
  ack_common seg m = take_ack seg m >>= λ n. next (ack_of_fin n.pcb.state seg n)

  -- The switch of the fifth check.
  unfoldable pub ack_by_state : PcbState → Segment → ℕ → Machine W → Flow W
  unfolding ack_common restart_timer
  ack_by_state syn_received seg flag m =
      if leb m.pcb.snd.una seg.ack && leb seg.ack m.pcb.snd.nxt
      then ack_common seg (transition established m)
      else done (tx_bare seg.ack 0 ControlFlag.rst m)
  ack_by_state established seg flag m = ack_common seg m
  ack_by_state fin_wait1 seg flag m = ack_common seg m
  ack_by_state fin_wait2 seg flag m = ack_common seg m
  ack_by_state close_wait seg flag m = ack_common seg m
  ack_by_state closing seg flag m = ack_common seg m
  ack_by_state last_ack seg flag m =
      if seg.ack == m.pcb.snd.nxt
      then done (transition closed (signal_err connection_closed m), none)
      else done (m, none)
  ack_by_state time_wait seg flag m =
      if is_set flag ControlFlag.fin then done (restart_timer m, none) else done (m, none)
  ack_by_state _ seg flag m = next m

  -- Fifth, the ACK field.
  unfoldable pub check_ack : Segment → ℕ → Machine W → Flow W
  unfolding ack_by_state
  check_ack seg flag m =
      if is_set flag ControlFlag.ack then ack_by_state m.pcb.state seg flag m else done (m, none)

  -- Sixth, the URG bit: the source tests RST here.
  unfoldable pub check_urg : Segment → ℕ → Machine W → Flow W
  unfolding max
  check_urg seg flag m =
      if receives_text m.pcb.state && is_set flag ControlFlag.rst
      then next (raise_urgent seg m)
      else next m

  -- The text of a segment is stored, and handed to a pending RECEIVE.
  unfoldable pub take_text : Segment → List ℕ → ℕ → Machine W → Machine W
  unfolding store_text
  take_text seg bytes data_len m =
      signal_cmd trigger_receive (record m { pcb = store_text seg bytes data_len m.pcb })

  -- Seventh, the text.
  unfoldable pub check_text : Segment → List ℕ → ℕ → Machine W → Flow W
  unfolding take_text
  check_text seg bytes data_len m =
      if receives_text m.pcb.state && ltb 0 data_len
      then done (tx_helper_tcp ControlFlag.ack [] trigger_no none (take_text seg bytes data_len m))
      else next m

  -- What a FIN does to the state; the other states were left before.
  unfoldable pub fin_by_state : PcbState → Segment → Machine W → Machine W
  unfolding restart_timer
  fin_by_state syn_received seg m = transition close_wait m
  fin_by_state established seg m = transition close_wait m
  fin_by_state fin_wait1 seg m =
      if seg.ack == m.pcb.snd.nxt
      then restart_timer (transition time_wait m)
      else transition closing m
  fin_by_state fin_wait2 seg m = restart_timer (transition time_wait m)
  fin_by_state time_wait seg m = restart_timer m
  fin_by_state _ seg m = m

  -- A pending RECEIVE gets what there is, and the sequence number of the FIN is taken.
  unfoldable pub past_fin : Segment → Machine W → Machine W
  past_fin seg m =
      let n = signal_cmd trigger_receive m in
      record n { pcb = record n.pcb { rcv = record n.pcb.rcv { nxt = u32 (seg.seq + 1) } } }

  -- The switch over the state is the one that the FIN changes.
  unfoldable pub take_fin : Segment → Machine W → Machine W
  unfolding past_fin fin_by_state
  take_fin seg m = let n = past_fin seg m in fin_by_state n.pcb.state seg n

  -- Eighth, the FIN bit.
  unfoldable pub check_fin : Segment → ℕ → Machine W → Flow W
  unfolding take_fin
  check_fin seg flag m =
      if is_unsynchronized m.pcb.state
      then done (m, none)
      else (if is_set flag ControlFlag.fin
          then done (tx_helper_tcp ControlFlag.ack [] trigger_no none (take_fin seg m))
          else next m)

  unfoldable pub arrives_synchronized :
      Segment → ℕ → List ℕ → ℕ → Machine W → Machine W × Option Error
  unfolding check_seq check_rst check_syn check_ack check_urg check_text check_fin
  arrives_synchronized seg flag bytes data_len m = finish (
      check_seq seg flag m
      >>= check_rst flag
      >>= check_syn flag
      >>= check_ack seg flag
      >>= check_urg seg flag
      >>= check_text seg bytes data_len
      >>= check_fin seg flag)
