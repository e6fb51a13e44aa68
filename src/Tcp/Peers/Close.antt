-- ===== src/Tcp/Peers/Close.antt =====
-- The close of a connection of pkg/tcp by one side and then by the other.
use mathlib.Core.Path.{subst}
use go_network.Base.{
  ℕ, ◌+◌, [], ◌∷◌, ◌≡◌, ◌<◌, refl, sym, ap, ◌∙◌, arith, All, true, Option, none, u32,
}
use go_network.Errors.{Error}
use go_network.Udp.Endpoint.{Endpoint}
use go_network.Tcp.ControlFlag
use go_network.Tcp.ControlFlag.{is_set}
use go_network.Tcp.Header.{header2data}
use go_network.Tcp.Pcb.{
  PcbState, Pcb, Machine, Env, transmit, established, fin_wait1, fin_wait2, close_wait, last_ack,
  time_wait, closed, trigger_close, trigger_no, transition,
}
use go_network.Tcp.Output.{tx_helper_tcp}
use go_network.Tcp.Segment.{Segment, acceptable, in_window}
use go_network.Tcp.Queue.{queue_ack, signal_cmd, signal_queue}
use go_network.Tcp.Queue.Remove.{queue_ack_lem}
use go_network.Tcp.Synchronized.{past_fin, restart_timer, update_window}
use go_network.Tcp.Registry.{segment_of}
use go_network.Tcp.Arrives.Outcomes.{ack_reply, reply_event}
use go_network.Tcp.Peers.{sent_header, arrive_event, arrive_from}
use go_network.Tcp.Peers.Established.{IsEstablished, HasSent, keep-acked}
use go_network.Tcp.Peers.Closing.{
  IsIn, FinSent, past_fin-IsIn, fin_established, fin_acked, ack_fin_wait1, finished, fin_fin_wait2,
  ack_last_ack,
}

-- The segment that arrives: a FIN, or an acknowledgement.
abbrev fin_segment : ℕ → Pcb → Segment
fin_segment seq p = record { seq = seq; ack = p.rcv.nxt; len = 1; wnd = p.rcv.wnd; up = p.rcv.up }

abbrev ack_segment : ℕ → Pcb → Segment
ack_segment seq p = record { seq = seq; ack = p.rcv.nxt; len = 0; wnd = p.rcv.wnd; up = p.rcv.up }

module _ {W : Type 0} ⦃env : Env W⦄ where
  answering :
      (st : PcbState) (here there : Endpoint) (u seq ack w : ℕ) (t : Machine W)
      → IsIn st here there u seq ack w t.pcb
      → let n = (tx_helper_tcp ControlFlag.ack [] trigger_no none t).0 in
        IsIn st here there u seq ack w n.pcb
        × (n.pcb ≡ t.pcb)
        × HasSent here there seq ack ControlFlag.ack n
  unfolding reply_event
  answering st here there u seq ack w t e =
      let (same, trace) = ack_reply t in
      (
        subst (IsIn st here there u seq ack w) (sym same) e,
        same,
        record {
          block = t.pcb;
          ack_of = e.rcv_nxt;
          rest = t.io.trace;
          trace = trace ∙ (λ i.
              transmit (e.local i) (e.foreign i)
                (sent_header (e.snd_nxt i) ControlFlag.ack [] t.pcb) []
              ∷ t.io.trace);
        },
      )

  pub fin-close_wait :
      (here there : Endpoint) (x y w : ℕ) (n s : Machine W)
      → IsEstablished there here y x w s.pcb
      → s.pcb.rx_len ≡ 0
      → HasSent here there x y ControlFlag.ack_fin n
      → 0 < w
      → x + 1 + w < 4294967296
      → let m = arrive_from n s in
        IsIn close_wait there here y y (x + 1) w m.pcb
        × (m.pcb.retx_queue ≡ [])
        × HasSent there here y (x + 1) ControlFlag.ack m
  unfolding arrive_from arrive_event segment_of header2data
  fin-close_wait here there x y w n s e empty sent positive small =
      let seg = fin_segment x sent.block in
      let wnd = e.rcv_wnd in
      let next = e.rcv_nxt in
      let ok : acceptable seg s.pcb ≡ true =
        unfold acceptable in_window in ground (arith, wnd, next, positive, small) in
      let t = transition close_wait (past_fin seg s) in
      let step : arrive_from n s ≡ (tx_helper_tcp ControlFlag.ack [] trigger_no none t).0 =
        ap (λ l. arrive_event l s) sent.trace
        ∙ unfold is_set in
          ap (λ (r : Machine W × Option Error). r.0)
            (fin_established seg here s e.state ok (sent.ack_of ∙ sym e.una) (e.una ∙ sym e.snd_nxt)
              empty) in
      let (past, queue) =
        past_fin-IsIn seg s established there here y y x w
          (record {
            in_state = e.state;
            local = e.local;
            foreign = e.foreign;
            snd_una = e.una;
            snd_nxt = e.snd_nxt;
            rcv_nxt = e.rcv_nxt;
            rcv_wnd = e.rcv_wnd;
          })
          empty in
      let (is_in, same, answer) = answering close_wait there here y y (x + 1) w t (record {
        in_state = refl;
        local = past.local;
        foreign = past.foreign;
        snd_una = past.snd_una;
        snd_nxt = past.snd_nxt;
        rcv_nxt = past.rcv_nxt ∙ omega (arith, small);
        rcv_wnd = past.rcv_wnd;
      }) in
      subst
        (λ (m : Machine W).
          IsIn close_wait there here y y (x + 1) w m.pcb
          × (m.pcb.retx_queue ≡ [])
          × HasSent there here y (x + 1) ControlFlag.ack m)
        (sym step) (is_in, ap (λ (p : Pcb). p.retx_queue) same ∙ queue ∙ e.queue, answer)

  fin_acked-IsIn :
      (seg : Segment) (here there : Endpoint) (x r w : ℕ) (m : Machine W)
      → IsIn fin_wait1 here there x (x + 1) r w m.pcb
      → seg.ack ≡ x + 1
      → All (λ e. e.seq ≡ x) m.pcb.retx_queue
      → let p = (fin_acked seg m).pcb in
        IsIn fin_wait2 here there (x + 1) (x + 1) r w p
        × (p.retx_queue ≡ [])
        × (p.rx_len ≡ m.pcb.rx_len)
  unfolding fin_acked update_window queue_ack
  fin_acked-IsIn seg here there x r w m e at queue =
      let q =
        (queue_ack_lem
          (record m { pcb = record m.pcb { snd = record m.pcb.snd { una = seg.ack } } })).0
        ∙ keep-acked x seg.ack m.pcb.retx_queue (omega (arith, at)) queue in
      let local = e.local in
      let foreign = e.foreign in
      let nxt = e.snd_nxt in
      let next = e.rcv_nxt in
      let wnd = e.rcv_wnd in
      (
        record {
          in_state = refl;
          local = ground (arith, local);
          foreign = ground (arith, foreign);
          snd_una = ground (arith, at);
          snd_nxt = ground (arith, nxt);
          rcv_nxt = ground (arith, next);
          rcv_wnd = ground (arith, wnd);
        },
        ground (arith, q),
        ground arith,
      )

  pub ack-fin_wait2 :
      (here there : Endpoint) (x y w : ℕ) (n m c : Machine W)
      → FinSent fin_wait1 here there x y w c m
      → HasSent there here y (x + 1) ControlFlag.ack n
      → y + w < 4294967296
      → let k = arrive_from n m in
        IsIn fin_wait2 here there (x + 1) (x + 1) y w k.pcb
        × (k.pcb.retx_queue ≡ [])
        × (k.pcb.rx_len ≡ c.pcb.rx_len)
  unfolding arrive_from arrive_event segment_of header2data
  ack-fin_wait2 here there x y w n m c e sent small =
      let seg = ack_segment y sent.block in
      let is_in = e.is_in in
      let una = is_in.snd_una in
      let wnd = is_in.rcv_wnd in
      let next = is_in.rcv_nxt in
      let at = sent.ack_of in
      let ok : acceptable seg m.pcb ≡ true =
        unfold acceptable in_window in ground (arith, wnd, next, small) in
      let step : arrive_from n m ≡ fin_acked seg m =
        ap (λ l. arrive_event l m) sent.trace
        ∙ unfold is_set in
          ap (λ (r : Machine W × Option Error). r.0)
            (ack_fin_wait1 seg there m is_in.in_state ok (ground (arith, una, at))
              (at ∙ sym is_in.snd_nxt)) in
      let (is_in2, queue, rx_len) = fin_acked-IsIn seg here there x y w m is_in at e.queue in
      subst
        (λ (k : Machine W).
          IsIn fin_wait2 here there (x + 1) (x + 1) y w k.pcb
          × (k.pcb.retx_queue ≡ [])
          × (k.pcb.rx_len ≡ c.pcb.rx_len))
        (sym step) (is_in2, queue, rx_len ∙ e.rx_len)

  finished-IsIn :
      (seg : Segment) (here there : Endpoint) (u n r w : ℕ) (m : Machine W)
      → IsIn fin_wait2 here there u n r w m.pcb
      → m.pcb.rx_len ≡ 0
      → IsIn time_wait here there u n (u32 (seg.seq + 1)) w (finished seg m).pcb
  unfolding finished restart_timer signal_cmd signal_queue
  finished-IsIn seg here there u n r w m e empty =
      let past =
        (past_fin-IsIn seg (signal_cmd trigger_close m) fin_wait2 here there u n r w
          (record {
            in_state = e.in_state;
            local = e.local;
            foreign = e.foreign;
            snd_una = e.snd_una;
            snd_nxt = e.snd_nxt;
            rcv_nxt = e.rcv_nxt;
            rcv_wnd = e.rcv_wnd;
          })
          empty).0 in
      record {
        in_state = refl;
        local = past.local;
        foreign = past.foreign;
        snd_una = past.snd_una;
        snd_nxt = past.snd_nxt;
        rcv_nxt = past.rcv_nxt;
        rcv_wnd = past.rcv_wnd;
      }

  pub fin-time_wait :
      (here there : Endpoint) (u y w : ℕ) (n m : Machine W)
      → IsIn fin_wait2 here there u u y w m.pcb
      → m.pcb.retx_queue ≡ []
      → m.pcb.rx_len ≡ 0
      → HasSent there here y u ControlFlag.ack_fin n
      → 0 < w
      → y + 1 + w < 4294967296
      → let k = arrive_from n m in
        IsIn time_wait here there u u (y + 1) w k.pcb
        × HasSent here there u (y + 1) ControlFlag.ack k
  unfolding arrive_from arrive_event segment_of header2data
  fin-time_wait here there u y w n m e queue empty sent positive small =
      let seg = fin_segment y sent.block in
      let wnd = e.rcv_wnd in
      let next = e.rcv_nxt in
      let ok : acceptable seg m.pcb ≡ true =
        unfold acceptable in_window in ground (arith, wnd, next, positive, small) in
      let t = finished seg m in
      let step : arrive_from n m ≡ (tx_helper_tcp ControlFlag.ack [] trigger_no none t).0 =
        ap (λ l. arrive_event l m) sent.trace
        ∙ unfold is_set in
          ap (λ (r : Machine W × Option Error). r.0)
            (fin_fin_wait2 seg there m e.in_state ok (sent.ack_of ∙ sym e.snd_una)
              (e.snd_una ∙ sym e.snd_nxt) empty queue) in
      let wrapped : u32 (y + 1) ≡ y + 1 = omega (arith, small) in
      let done =
        subst (λ r. IsIn time_wait here there u u r w t.pcb) wrapped
          (finished-IsIn seg here there u u y w m e empty) in
      let (is_in, same, answer) = answering time_wait here there u u (y + 1) w t done in
      subst
        (λ (k : Machine W).
          IsIn time_wait here there u u (y + 1) w k.pcb
          × HasSent here there u (y + 1) ControlFlag.ack k)
        (sym step) (is_in, answer)

  pub ack-closed :
      (here there : Endpoint) (x y w : ℕ) (n m s : Machine W)
      → FinSent last_ack there here y x w s m
      → HasSent here there x (y + 1) ControlFlag.ack n
      → x + w < 4294967296
      → (arrive_from n m).pcb.state ≡ closed
  unfolding arrive_from arrive_event segment_of header2data
  ack-closed here there x y w n m s e sent small =
      let seg = ack_segment x sent.block in
      let is_in = e.is_in in
      let wnd = is_in.rcv_wnd in
      let next = is_in.rcv_nxt in
      let ok : acceptable seg m.pcb ≡ true =
        unfold acceptable in_window in ground (arith, wnd, next, small) in
      ap (λ l. (arrive_event l m).pcb.state) sent.trace
      ∙ unfold is_set in ack_last_ack seg here m is_in.in_state ok (sent.ack_of ∙ sym is_in.snd_nxt)
