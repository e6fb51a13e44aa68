-- ===== src/Tcp/Peers/Closing.antt =====
-- The FIN of each side of an established connection of pkg/tcp, and its acknowledgement.
use mathlib.Core.Path.{subst}
use go_network.Base.{
  ℕ, ◌+◌, [], ◌∷◌, ◌≡◌, ◌<◌, refl, ap, ◌∙◌, arith, All, ltb, true, some, none, u32,
}
use go_network.Udp.Endpoint.{Endpoint}
use go_network.Tcp.ControlFlag
use go_network.Tcp.ControlFlag.{is_set}
use go_network.Tcp.Pcb.{
  PcbState, Pcb, Snd, Rcv, Machine, Env, transmit, established, fin_wait1, fin_wait2, close_wait,
  last_ack, time_wait, closed, trigger_close, trigger_no, Chan, transition,
}
use go_network.Tcp.Output.{tx_helper_tcp}
use go_network.Tcp.Segment.{Segment, acceptable}
use go_network.Tcp.Queue.{queue_ack, signal_cmd, signal_receive, signal_queue}
use go_network.Tcp.Calls.{close, close_in, advance, after_retry}
use go_network.Tcp.Synchronized.{
  arrives_synchronized, check_seq, check_rst, check_syn, check_ack, ack_by_state, ack_common,
  take_ack, ack_of_fin, check_urg, check_text, check_fin, take_fin, past_fin, fin_by_state,
  restart_timer, update_window,
}
use go_network.Tcp.Arrives.{segment_arrives, arrives_in}
use go_network.Tcp.Peers.{Sends, sent_header, tx_helper_tcp-Sent}
use go_network.Tcp.Peers.Opening.{retry-good}
use go_network.Tcp.Peers.Established.{HasSent}

-- A control block in that state; the numbers are SND.UNA, SND.NXT, RCV.NXT and RCV.WND.
pub record IsIn (state : PcbState) (here there : Endpoint) (una nxt received window : ℕ) (p : Pcb)
    : Type 0 where
  pub in_state : p.state ≡ state
  pub local : p.local ≡ here
  pub foreign : p.foreign ≡ there
  pub snd_una : p.snd.una ≡ una
  pub snd_nxt : p.snd.nxt ≡ nxt
  pub rcv_nxt : p.rcv.nxt ≡ received
  pub rcv_wnd : p.rcv.wnd ≡ window

module _ {W : Type 0} ⦃env : Env W⦄ where
  -- A FIN in ESTABLISHED, behind the text that has arrived.
  pub fin_established :
      (seg : Segment) (peer : Endpoint) (m : Machine W)
      → m.pcb.state ≡ established
      → acceptable seg m.pcb ≡ true
      → seg.ack ≡ m.pcb.snd.una
      → m.pcb.snd.una ≡ m.pcb.snd.nxt
      → m.pcb.rx_len ≡ 0
      → segment_arrives seg ControlFlag.ack_fin [] 0 peer m
        ≡ tx_helper_tcp ControlFlag.ack [] trigger_no none (transition close_wait (past_fin seg m))
  unfolding segment_arrives arrives_synchronized check_seq check_rst check_syn check_ack
      ack_by_state ack_common take_ack ack_of_fin check_urg check_text check_fin take_fin past_fin
      fin_by_state signal_cmd signal_receive is_set
  fin_established seg peer m s ok a u empty =
      ap (λ state. arrives_in state seg ControlFlag.ack_fin [] 0 peer m) s
      ∙ (unfold arrives_in in ground (arith, s, ok, a, u, empty))

  -- The acknowledgement of the own FIN in FIN-WAIT-1.
  unfoldable pub fin_acked : Segment → Machine W → Machine W
  fin_acked seg m = transition fin_wait2 (
      update_window seg
        (queue_ack (record m { pcb = record m.pcb { snd = record m.pcb.snd { una = seg.ack } } })))

  pub ack_fin_wait1 :
      (seg : Segment) (peer : Endpoint) (m : Machine W)
      → m.pcb.state ≡ fin_wait1
      → acceptable seg m.pcb ≡ true
      → ltb m.pcb.snd.una seg.ack ≡ true
      → seg.ack ≡ m.pcb.snd.nxt
      → segment_arrives seg ControlFlag.ack [] 0 peer m ≡ (fin_acked seg m, none)
  unfolding segment_arrives arrives_synchronized check_seq check_rst check_syn check_ack
      ack_by_state ack_common take_ack ack_of_fin check_urg check_text check_fin fin_acked
      update_window queue_ack is_set
  ack_fin_wait1 seg peer m s ok u n =
      ap (λ state. arrives_in state seg ControlFlag.ack [] 0 peer m) s
      ∙ (unfold arrives_in in ground (arith, s, ok, u, n))

  -- The FIN of the peer in FIN-WAIT-2.
  unfoldable pub finished : Segment → Machine W → Machine W
  finished seg m = restart_timer (transition time_wait (past_fin seg (signal_cmd trigger_close m)))

  pub fin_fin_wait2 :
      (seg : Segment) (peer : Endpoint) (m : Machine W)
      → m.pcb.state ≡ fin_wait2
      → acceptable seg m.pcb ≡ true
      → seg.ack ≡ m.pcb.snd.una
      → m.pcb.snd.una ≡ m.pcb.snd.nxt
      → m.pcb.rx_len ≡ 0
      → m.pcb.retx_queue ≡ []
      → segment_arrives seg ControlFlag.ack_fin [] 0 peer m
        ≡ tx_helper_tcp ControlFlag.ack [] trigger_no none (finished seg m)
  unfolding segment_arrives arrives_synchronized check_seq check_rst check_syn check_ack
      ack_by_state ack_common take_ack ack_of_fin check_urg check_text check_fin take_fin past_fin
      fin_by_state signal_cmd signal_receive signal_queue is_set finished restart_timer
  fin_fin_wait2 seg peer m s ok a u empty q =
      ap (λ state. arrives_in state seg ControlFlag.ack_fin [] 0 peer m) s
      ∙ (unfold arrives_in in ground (arith, s, ok, a, u, empty, q))

  -- The acknowledgement of the own FIN in LAST-ACK.
  pub ack_last_ack :
      (seg : Segment) (peer : Endpoint) (m : Machine W)
      → m.pcb.state ≡ last_ack
      → acceptable seg m.pcb ≡ true
      → seg.ack ≡ m.pcb.snd.nxt
      → (segment_arrives seg ControlFlag.ack [] 0 peer m).0.pcb.state ≡ closed
  unfolding segment_arrives arrives_synchronized check_seq check_rst check_syn check_ack
      ack_by_state is_set
  ack_last_ack seg peer m s ok n =
      ap (λ state. (arrives_in state seg ControlFlag.ack [] 0 peer m).0.pcb.state) s
      ∙ (unfold arrives_in in ground (arith, s, ok, n))

module _ {W : Type 0} where
  no_text : (m : Machine W) → m.pcb.rx_len ≡ 0 → signal_receive m ≡ m
  unfolding signal_receive
  no_text m empty = ground (arith, empty)

module _ {W : Type 0} ⦃env : Env W⦄ where
  pub past_fin-IsIn :
      (seg : Segment) (m : Machine W) (st : PcbState) (here there : Endpoint) (u n r w : ℕ)
      → IsIn st here there u n r w m.pcb
      → m.pcb.rx_len ≡ 0
      → IsIn st here there u n (u32 (seg.seq + 1)) w (past_fin seg m).pcb
        × ((past_fin seg m).pcb.retx_queue ≡ m.pcb.retx_queue)
  unfolding past_fin signal_cmd
  past_fin-IsIn seg m st here there u n r w e empty = rw (no_text m empty) (
    record {
      in_state = e.in_state;
      local = e.local;
      foreign = e.foreign;
      snd_una = e.snd_una;
      snd_nxt = e.snd_nxt;
      rcv_nxt = refl;
      rcv_wnd = e.rcv_wnd;
    },
    refl,
  )

-- After a FIN was sent: the number of the FIN waits for its acknowledgement.
pub record FinSent {W : Type 0} (state : PcbState) (here there : Endpoint) (seq ack window : ℕ)
    (m n : Machine W) : Type 0 where
  pub is_in : IsIn state here there seq (seq + 1) ack window n.pcb
  pub queue : All (λ e. e.seq ≡ seq) n.pcb.retx_queue
  pub rx_len : n.pcb.rx_len ≡ m.pcb.rx_len
  pub sent : HasSent here there seq ack ControlFlag.ack_fin n

module _ {W : Type 0} ⦃env : Env W⦄ (sends : Sends env) where
  pub advance-FinSent :
      (to : PcbState) (ch : Chan) (m : Machine W) (st : PcbState) (here there : Endpoint)
      (x r w : ℕ)
      → IsIn st here there x x r w m.pcb
      → m.pcb.retx_queue ≡ []
      → x + 1 < 4294967296
      → FinSent to here there x r w m (
          advance 1
            (transition to (tx_helper_tcp ControlFlag.ack_fin [] trigger_close (some ch) m).0))
  unfolding is_set
  advance-FinSent to ch m st here there x r w e q small =
      let sent =
        tx_helper_tcp-Sent sends ControlFlag.ack_fin [] trigger_close (some ch) m (omega arith) in
      let same = sent.same in
      let at = e.snd_nxt in
      let n = tx_helper_tcp ControlFlag.ack_fin [] trigger_close (some ch) m in
      record {
        is_in = record {
          in_state = refl;
          local = same.local ∙ e.local;
          foreign = same.foreign ∙ e.foreign;
          snd_una = ap (λ (k : Snd). k.una) same.snd ∙ e.snd_una;
          snd_nxt = ap (λ (k : Snd). u32 (k.nxt + 1)) same.snd ∙ omega (arith, at, small);
          rcv_nxt = ap (λ (k : Rcv). k.nxt) same.rcv ∙ e.rcv_nxt;
          rcv_wnd = ap (λ (k : Rcv). k.wnd) same.rcv ∙ e.rcv_wnd;
        };
        queue = subst (λ k. All (λ e. e.seq ≡ k) n.0.pcb.retx_queue) at (sent.queue q);
        rx_len = same.rx_len;
        sent = record {
          block = m.pcb;
          ack_of = e.rcv_nxt;
          rest = m.io.trace;
          trace = sent.trace ∙ (λ i.
              transmit (e.local i) (e.foreign i)
                (sent_header (e.snd_nxt i) ControlFlag.ack_fin [] m.pcb) []
              ∷ m.io.trace);
        };
      }

  pub close_established :
      (ch : Chan) (m : Machine W)
      → m.pcb.state ≡ established
      → close ch m
        ≡ advance 1 (
            transition fin_wait1 (tx_helper_tcp ControlFlag.ack_fin [] trigger_close (some ch) m).0)
  unfolding close close_in after_retry
  close_established ch m s =
      let good =
        (tx_helper_tcp-Sent sends ControlFlag.ack_fin [] trigger_close (some ch) m
          (omega arith)).good in
      ap (λ state. close_in state ch m) s
      ∙ rw (retry-good sends 2 ControlFlag.ack_fin [] trigger_close ch none m good) refl

  pub close_close_wait :
      (ch : Chan) (m : Machine W)
      → m.pcb.state ≡ close_wait
      → close ch m
        ≡ advance 1
            (transition last_ack (tx_helper_tcp ControlFlag.ack_fin [] trigger_close (some ch) m).0)
  unfolding close close_in after_retry
  close_close_wait ch m s =
      let good =
        (tx_helper_tcp-Sent sends ControlFlag.ack_fin [] trigger_close (some ch) m
          (omega arith)).good in
      ap (λ state. close_in state ch m) s
      ∙ rw (retry-good sends 2 ControlFlag.ack_fin [] trigger_close ch none m good) refl
