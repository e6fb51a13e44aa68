-- ===== src/Tcp/Handshake.antt =====
-- segmentArrives of pkg/tcp/protocol.go in the states CLOSED, LISTEN and SYN-SENT.
use go_network.Base.{
  ℕ, ◌+◌, List, [], ◌&&◌, ◌||◌, not, Bool, Option, none, ltb, leb, if◌then◌else◌, u16, u32,
}
use go_network.Errors.{Error, connection_reset}
use go_network.Udp.Endpoint.{Endpoint}
use go_network.Tcp.ControlFlag
use go_network.Tcp.ControlFlag.{is_set}
use go_network.Tcp.Pcb.{
  syn_received, established, closed, Pcb, Machine, Env, trigger_no, trigger_open, buffer_size,
  transition,
}
use go_network.Tcp.Queue.{queue_ack, signal_cmd, signal_err}
use go_network.Tcp.Output.{tx_helper_tcp}
use go_network.Tcp.Segment.{Segment, copy_in, tx_bare}

-- The assignments of LISTEN on a SYN, with the new initial sequence number.
unfoldable pub accept_syn : Segment → List ℕ → ℕ → Endpoint → ℕ → Pcb → Pcb
unfolding copy_in
accept_syn seg bytes data_len foreign iss p = record p {
  state = syn_received;
  foreign = foreign;
  rcv = record p.rcv { nxt = u32 (seg.seq + 1); wnd = buffer_size };
  irs = seg.seq;
  iss = iss;
  snd = record p.snd { nxt = u32 (iss + 1); una = iss };
  rx_queue = copy_in p.rx_len bytes p.rx_queue;
  rx_len = u16 (p.rx_len + u16 data_len);
}

module _ {W : Type 0} ⦃env : Env W⦄ where
  unfoldable pub arrives_closed : Segment → ℕ → Machine W → Machine W × Option Error
  unfolding tx_bare
  arrives_closed seg flag m =
      if is_set flag ControlFlag.rst
      then (m, none)
      else (if not (is_set flag ControlFlag.ack)
          then tx_bare 0 (u32 (seg.seq + seg.len)) ControlFlag.rst_ack m
          else tx_bare seg.ack 0 ControlFlag.rst m)

  unfoldable pub arrives_listen :
      Segment → ℕ → List ℕ → ℕ → Endpoint → Machine W → Machine W × Option Error
  unfolding tx_bare accept_syn
  arrives_listen seg flag bytes data_len foreign m =
      if is_set flag ControlFlag.rst
      then (m, none)
      else (if is_set flag ControlFlag.ack
          then tx_bare seg.ack 0 ControlFlag.rst m
          else (if is_set flag ControlFlag.syn
              then (let (w, iss) = env.rand_uint32 m.io.world in
                  tx_helper_tcp ControlFlag.syn_ack [] trigger_no none (record {
                    pcb = accept_syn seg bytes data_len foreign iss m.pcb;
                    io = record m.io { world = w };
                  }))
              else (m, none)))

  -- SYN-SENT on a SYN: what the segment says of the peer, and of our SYN if it acknowledges it.
  unfoldable pub note_syn : Bool → Segment → Machine W → Machine W
  note_syn acked seg m =
      let p = m.pcb in
      let q = record p { rcv = record p.rcv { nxt = u32 (seg.seq + 1) }; irs = seg.seq } in
      if acked
      then queue_ack (record m { pcb = record q { snd = record q.snd { una = seg.ack } } })
      else record m { pcb = q }

  -- Our SYN is acknowledged: the connection is established, and the caller of OPEN is told.
  unfoldable pub establish : Segment → Machine W → Machine W
  establish seg m =
      let p = m.pcb in
      signal_cmd trigger_open (record m {
        pcb = record p {
          state = established;
          snd = record p.snd { wnd = seg.wnd; wl1 = seg.seq; wl2 = seg.ack };
        };
      })

  -- The fourth check of SYN-SENT.
  unfoldable pub syn_sent_syn : Bool → Segment → Machine W → Machine W × Option Error
  unfolding note_syn establish
  syn_sent_syn acked seg m =
      let n = note_syn acked seg m in
      if ltb n.pcb.iss n.pcb.snd.una
      then tx_helper_tcp ControlFlag.ack [] trigger_no none (establish seg n)
      else tx_helper_tcp ControlFlag.syn_ack [] trigger_no none (transition syn_received n)

  unfoldable pub arrives_syn_sent : Segment → ℕ → Machine W → Machine W × Option Error
  unfolding tx_bare syn_sent_syn
  arrives_syn_sent seg flag m =
      let p = m.pcb in
      let has_ack = is_set flag ControlFlag.ack in
      let acked = has_ack && (leb p.snd.una seg.ack && leb seg.ack p.snd.nxt) in
      if has_ack && (leb seg.ack p.iss || ltb p.snd.nxt seg.ack)
      then tx_bare seg.ack 0 ControlFlag.rst m
      else (if is_set flag ControlFlag.rst
          then (if acked
              then (transition closed (signal_err connection_reset m), none)
              else (m, none))
          else (if is_set flag ControlFlag.syn then syn_sent_syn acked seg m else (m, none)))
