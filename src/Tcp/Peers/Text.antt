-- ===== src/Tcp/Peers/Text.antt =====
-- The segments of text between two peers of pkg/tcp whose connection is established.
use mathlib.Core.Path.{subst}
use go_network.Base.{
  ℕ, ◌+◌, List, [], ◌∷◌, ◌≡◌, ◌≤◌, ◌<◌, refl, ap, ◌∙◌, arith, All, length, ltb, leb, true, some,
  none, u32, if◌then◌else◌,
}
use go_network.Errors.{insufficient_resources}
use go_network.Udp.Endpoint.{Endpoint}
use go_network.Tcp.ControlFlag
use go_network.Tcp.ControlFlag.{is_set}
use go_network.Tcp.Pcb.{
  Pcb, Snd, Machine, Env, Event, transmit, established, trigger_send, trigger_no, Chan,
}
use go_network.Tcp.Output.{tx_helper_tcp, payload_size_max}
use go_network.Tcp.Segment.{Segment, acceptable}
use go_network.Tcp.Queue.{queue_ack, signal_cmd, signal_receive, deliver_data}
use go_network.Tcp.Calls.{send, send_in, send_established, reply, advance, after_retry}
use go_network.Tcp.Synchronized.{
  take_text, store_text, update_window, check_fin, arrives_synchronized, check_seq, check_rst,
  check_syn, check_ack, ack_by_state, ack_common, take_ack, ack_of_fin, check_urg, check_text,
}
use go_network.Tcp.Arrives.{segment_arrives, arrives_in}
use go_network.Tcp.Frames.{Same}
use go_network.Tcp.Peers.{Sends, sent_header, tx_helper_tcp-Sent}
use go_network.Tcp.Peers.Opening.{retry-good}
use go_network.Tcp.Peers.Established.{acked}

-- After Send of the bytes on the connection of m.
pub record IsSending {W : Type 0} (bytes : List ℕ) (seq : ℕ) (m n : Machine W) : Type 0 where
  pub state : n.pcb.state ≡ m.pcb.state
  pub local : n.pcb.local ≡ m.pcb.local
  pub foreign : n.pcb.foreign ≡ m.pcb.foreign
  pub snd : n.pcb.snd ≡ record m.pcb.snd { nxt = u32 (seq + length bytes) }
  pub rcv : n.pcb.rcv ≡ m.pcb.rcv
  pub queue : All (λ e. e.seq ≡ seq) n.pcb.retx_queue
  pub rest : List Event
  pub trace :
      n.io.trace
      ≡ transmit m.pcb.local m.pcb.foreign (sent_header seq ControlFlag.ack bytes m.pcb) bytes
        ∷ rest

module _ {W : Type 0} ⦃env : Env W⦄ where
  -- Send tells the caller if the peer's window is smaller than the message, and goes on.
  abbrev pub warned : Chan → List ℕ → Machine W → Machine W
  warned ch bytes m =
      if ltb m.pcb.snd.wnd (length bytes) then reply ch (some insufficient_resources) m else m

  pub warned-pcb : (ch : Chan) (bytes : List ℕ) (m : Machine W) → (warned ch bytes m).pcb ≡ m.pcb
  warned-pcb ch bytes m = ground arith

module _ {W : Type 0} ⦃env : Env W⦄ (sends : Sends env) where
  pub send-sent :
      (ch : Chan) (bytes : List ℕ) (m : Machine W)
      → m.pcb.state ≡ established
      → length bytes ≤ payload_size_max
      → send ch bytes m
        ≡ advance
            (length bytes)
            (tx_helper_tcp ControlFlag.ack bytes trigger_send (some ch) (warned ch bytes m)).0
  unfolding send send_in send_established after_retry
  send-sent ch bytes m s small =
      let n = warned ch bytes m in
      let good =
        (tx_helper_tcp-Sent sends ControlFlag.ack bytes trigger_send (some ch) n small).good in
      ap (λ state. send_in state ch bytes m) s
      ∙ rw (retry-good sends 2 ControlFlag.ack bytes trigger_send ch none n good) refl

  pub send-IsSending :
      (ch : Chan) (bytes : List ℕ) (m : Machine W)
      → m.pcb.state ≡ established
      → m.pcb.retx_queue ≡ []
      → length bytes ≤ payload_size_max
      → IsSending bytes m.pcb.snd.nxt m (send ch bytes m)
  unfolding is_set
  send-IsSending ch bytes m s q small =
      let n = warned ch bytes m in
      let sent = tx_helper_tcp-Sent sends ControlFlag.ack bytes trigger_send (some ch) n small in
      let p = warned-pcb ch bytes m in
      let same : Same m.pcb (tx_helper_tcp ControlFlag.ack bytes trigger_send (some ch) n).0.pcb =
        subst (λ k. Same k (tx_helper_tcp ControlFlag.ack bytes trigger_send (some ch) n).0.pcb) p
          sent.same in
      rw (send-sent ch bytes m s small) (record {
        state = same.state;
        local = same.local;
        foreign = same.foreign;
        snd = ap (λ (k : Snd). record k { nxt = u32 (k.nxt + length bytes) }) same.snd;
        rcv = same.rcv;
        queue =
            subst
              (λ k.
                All (λ e. e.seq ≡ k.snd.nxt)
                  (tx_helper_tcp ControlFlag.ack bytes trigger_send (some ch) n).0.pcb.retx_queue)
              p (sent.queue (ap (λ (k : Pcb). k.retx_queue) p ∙ q));
        rest = n.io.trace;
        trace =
            sent.trace
            ∙ ap
                (λ (k : Pcb).
                  transmit k.local k.foreign (sent_header k.snd.nxt ControlFlag.ack bytes k) bytes
                  ∷ n.io.trace)
                p;
      })

module _ {W : Type 0} ⦃env : Env W⦄ where
  pub text-accepted :
      (seg : Segment) (bytes : List ℕ) (peer : Endpoint) (m : Machine W)
      → m.pcb.state ≡ established
      → acceptable seg m.pcb ≡ true
      → seg.ack ≡ m.pcb.snd.una
      → m.pcb.snd.una ≡ m.pcb.snd.nxt
      → 0 < length bytes
      → segment_arrives seg ControlFlag.ack bytes (length bytes) peer m
        ≡ tx_helper_tcp ControlFlag.ack [] trigger_no none (take_text seg bytes (length bytes) m)
  unfolding segment_arrives arrives_synchronized check_seq check_rst check_syn check_ack
      ack_by_state ack_common take_ack ack_of_fin check_urg check_text is_set
  text-accepted seg bytes peer m s ok a u some_text =
      ap (λ state. arrives_in state seg ControlFlag.ack bytes (length bytes) peer m) s
      ∙ (unfold arrives_in in ground (arith, s, ok, a, u, some_text))

  pub take_text_frame :
      (seg : Segment) (bytes : List ℕ) (m : Machine W)
      → let p = (take_text seg bytes (length bytes) m).pcb in
        (p.retx_queue ≡ m.pcb.retx_queue)
        × (p.state ≡ m.pcb.state)
        × (p.local ≡ m.pcb.local)
        × (p.foreign ≡ m.pcb.foreign)
        × (p.snd ≡ m.pcb.snd)
        × (p.rcv.nxt ≡ u32 (seg.seq + seg.len))
  unfolding take_text signal_cmd signal_receive deliver_data store_text
  take_text_frame seg bytes m =
      (ground arith, ground arith, ground arith, ground arith, ground arith, ground arith)

  pub established-ack :
      (seg : Segment) (peer : Endpoint) (m : Machine W)
      → m.pcb.state ≡ established
      → acceptable seg m.pcb ≡ true
      → ltb m.pcb.snd.una seg.ack ≡ true
      → leb seg.ack m.pcb.snd.nxt ≡ true
      → segment_arrives seg ControlFlag.ack [] 0 peer m ≡ (update_window seg (acked seg m), none)
  unfolding segment_arrives arrives_synchronized check_seq check_rst check_syn check_ack
      ack_by_state ack_common take_ack ack_of_fin check_urg check_text check_fin is_set acked
      update_window queue_ack
  established-ack seg peer m s ok u n =
      ap (λ state. arrives_in state seg ControlFlag.ack [] 0 peer m) s
      ∙ (unfold arrives_in in ground (arith, s, ok, u, n))
