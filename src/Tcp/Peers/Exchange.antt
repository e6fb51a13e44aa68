-- ===== src/Tcp/Peers/Exchange.antt =====
-- A Send on one side and a pending RECEIVE on the other of an established connection of pkg/tcp.
use mathlib.Core.Path.{subst}
use go_network.Base.{
  ℕ, ◌+◌, List, [], ◌∷◌, ◌++◌, ◌≡◌, ◌≤◌, ◌<◌, refl, sym, ap, ◌∙◌, arith, All, length, true, Option,
  some, none,
}
use go_network.Errors.{Error}
use go_network.Udp.Endpoint.{Endpoint}
use go_network.Tcp.ControlFlag
use go_network.Tcp.ControlFlag.{is_set}
use go_network.Tcp.Header.{header2data}
use go_network.Tcp.Pcb.{
  Pcb, Snd, Rcv, Machine, Env, Event, transmit, notify, deliver, established, trigger_no, Chan,
  buffer_size,
}
use go_network.Tcp.Output.{tx_helper_tcp, payload_size_max}
use go_network.Tcp.Segment.{Segment, acceptable, in_window}
use go_network.Tcp.Queue.{queue_ack}
use go_network.Tcp.Queue.Delivery.{contents}
use go_network.Tcp.Queue.Remove.{queue_ack_lem}
use go_network.Tcp.Calls.{send}
use go_network.Tcp.Synchronized.{take_text, update_window}
use go_network.Tcp.Synchronized.Text.{take_text_delivers}
use go_network.Tcp.Registry.{segment_of}
use go_network.Tcp.Arrives.Outcomes.{ack_reply, reply_event}
use go_network.Tcp.Peers.{Sends, sent_header, arrive_event, arrive_from}
use go_network.Tcp.Peers.Established.{
  IsEstablished, HasSent, acknowledging, acked, keep-acked, update_window-IsEstablished,
}
use go_network.Tcp.Peers.Text.{
  IsSending, send-IsSending, text-accepted, take_text_frame, established-ack,
}

-- The segment of IsSending as it arrives.
abbrev pub text_segment : ℕ → List ℕ → Pcb → Segment
text_segment seq bytes p = record {
  seq = seq;
  ack = p.rcv.nxt;
  len = length bytes;
  wnd = p.rcv.wnd;
  up = p.rcv.up;
}

-- A segment of an acknowledgement as it arrives.
abbrev pub ack_segment : ℕ → Pcb → Segment
ack_segment seq p = record { seq = seq; ack = p.rcv.nxt; len = 0; wnd = p.rcv.wnd; up = p.rcv.up }

module _ {W : Type 0} ⦃env : Env W⦄ where
  arrive-text :
      (seq : ℕ) (bytes : List ℕ) (p : Pcb) (src dst : Endpoint) (rest : List Event) (s : Machine W)
      → s.pcb.state ≡ established
      → acceptable (text_segment seq bytes p) s.pcb ≡ true
      → p.rcv.nxt ≡ s.pcb.snd.una
      → s.pcb.snd.una ≡ s.pcb.snd.nxt
      → 0 < length bytes
      → arrive_event (transmit src dst (sent_header seq ControlFlag.ack bytes p) bytes ∷ rest) s
        ≡ (tx_helper_tcp ControlFlag.ack [] trigger_no none
            (take_text (text_segment seq bytes p) bytes (length bytes) s)).0
  unfolding arrive_event segment_of header2data is_set
  arrive-text seq bytes p src dst rest s e ok a u some_text =
      ap (λ (r : Machine W × Option Error). r.0)
        (text-accepted (text_segment seq bytes p) bytes src s e ok a u some_text)

  pub take_text-IsEstablished :
      (seg : Segment) (bytes : List ℕ) (here there : Endpoint) (x y wnd : ℕ) (s : Machine W)
      (ch : Chan)
      → IsEstablished here there y x wnd s.pcb
      → seg.seq ≡ x
      → seg.len ≡ length bytes
      → x + length bytes < 4294967296
      → s.pcb.rcv_cmd.err_ch ≡ some ch
      → 0 < length bytes
      → s.pcb.rx_len ≡ 0
      → length bytes ≤ buffer_size
      → length bytes ≤ s.pcb.rcv_cmd.room
      → IsEstablished here there y
          (x + length bytes)
          buffer_size
          (take_text seg bytes (length bytes) s).pcb
  take_text-IsEstablished seg bytes here there x y wnd s ch e at len small asked some_text empty
        fits room =
      let (queue, state, local, foreign, snd, nxt) = take_text_frame seg bytes s in
      record {
        state = state ∙ e.state;
        local = local ∙ e.local;
        foreign = foreign ∙ e.foreign;
        una = ap (λ (q : Snd). q.una) snd ∙ e.una;
        snd_nxt = ap (λ (q : Snd). q.nxt) snd ∙ e.snd_nxt;
        rcv_nxt = nxt ∙ omega (arith, at, len, small);
        rcv_wnd =
            (take_text_delivers seg bytes s ch asked some_text (omega (arith, empty, fits))
              (omega (arith, empty, room))).2;
        queue = queue ∙ e.queue;
      }

  -- The acknowledgement of something, in order, as it is taken.
  pub arrive-ack_taken :
      (seq : ℕ) (p : Pcb) (src dst : Endpoint) (wnd : ℕ) (rest : List Event) (m : Machine W)
      → m.pcb.state ≡ established
      → m.pcb.snd.una < p.rcv.nxt
      → p.rcv.nxt ≡ m.pcb.snd.nxt
      → m.pcb.rcv.nxt ≡ seq
      → m.pcb.rcv.wnd ≡ wnd
      → seq + wnd < 4294967296
      → arrive_event (transmit src dst (sent_header seq ControlFlag.ack [] p) [] ∷ rest) m
        ≡ update_window (ack_segment seq p) (acked (ack_segment seq p) m)
  unfolding arrive_event segment_of header2data is_set
  arrive-ack_taken seq p src dst wnd rest m state una nxt rnxt rwnd small =
      let seg = ack_segment seq p in
      let ok : acceptable seg m.pcb ≡ true =
        unfold acceptable in_window in ground (arith, rnxt, rwnd, small) in
      ap (λ (r : Machine W × Option Error). r.0)
        (established-ack seg src m state ok (ground (arith, una)) (ground (arith, nxt)))

  -- The acknowledgement of all that a machine sent.
  arrive-ack :
      (seq ack : ℕ) (p : Pcb) (here there src dst : Endpoint) (wnd old : ℕ) (rest : List Event)
      (m : Machine W)
      → m.pcb.state ≡ established
      → m.pcb.local ≡ here
      → m.pcb.foreign ≡ there
      → m.pcb.snd.una ≡ old
      → m.pcb.snd.nxt ≡ ack
      → m.pcb.rcv.nxt ≡ seq
      → m.pcb.rcv.wnd ≡ wnd
      → All (λ e. e.seq ≡ old) m.pcb.retx_queue
      → old < ack
      → seq + wnd < 4294967296
      → p.rcv.nxt ≡ ack
      → IsEstablished here there ack seq wnd
          (arrive_event (transmit src dst (sent_header seq ControlFlag.ack [] p) [] ∷ rest) m).pcb
  arrive-ack seq ack p here there src dst wnd old rest m state local foreign una nxt rnxt rwnd queue
        h small at =
      let seg = ack_segment seq p in
      let step =
        arrive-ack_taken seq p src dst wnd rest m state (omega (arith, una, at, h)) (at ∙ sym nxt)
          rnxt rwnd small in
      rw step (
        update_window-IsEstablished seg here there ack seq wnd (acked seg m) (
          unfold acked queue_ack in
          record {
            state = refl;
            local = local;
            foreign = foreign;
            una = at;
            snd_nxt = nxt;
            rcv_nxt = rnxt;
            rcv_wnd = rwnd;
            queue =
                (queue_ack_lem (record m {
                  pcb = record m.pcb {
                    state = established;
                    snd = record m.pcb.snd { una = seg.ack };
                  };
                })).0
                ∙ keep-acked old seg.ack m.pcb.retx_queue (omega (arith, at, h)) queue;
          }))

  -- The text of a Send as the peer takes it.
  abbrev pub taken : List ℕ → Machine W → Machine W → Machine W
  taken bytes c s = take_text (text_segment c.pcb.snd.nxt bytes c.pcb) bytes (length bytes) s

  -- The peer takes the text, and then acknowledges it.
  pub arrive_from-send :
      (sends : Sends env) (ch : Chan) (bytes : List ℕ) (c s : Machine W) (here there : Endpoint)
      (x y cw sw : ℕ)
      → IsEstablished here there x y cw c.pcb
      → IsEstablished there here y x sw s.pcb
      → 0 < length bytes
      → length bytes ≤ payload_size_max
      → 0 < sw
      → x + sw < 4294967296
      → arrive_from (send ch bytes c) s
        ≡ (tx_helper_tcp ControlFlag.ack [] trigger_no none (taken bytes c s)).0
  unfolding arrive_from
  arrive_from-send sends ch bytes c s here there x y cw sw ec es some_text small positive xs =
      let seq = c.pcb.snd.nxt in
      let at = ec.snd_nxt in
      let next = es.rcv_nxt in
      let wnd = es.rcv_wnd in
      let sent = send-IsSending sends ch bytes c ec.state ec.queue small in
      let ok : acceptable (text_segment seq bytes c.pcb) s.pcb ≡ true =
        unfold acceptable in_window in ground (arith, at, next, wnd, positive, xs, some_text) in
      ap (λ l. arrive_event l s) sent.trace
      ∙ arrive-text seq bytes c.pcb c.pcb.local c.pcb.foreign sent.rest s es.state ok
          (ec.rcv_nxt ∙ sym es.una) (es.una ∙ sym es.snd_nxt) some_text

  module _ (sends : Sends env) (ch receiver_ch : Chan) (bytes : List ℕ) (c s : Machine W)
      (here there : Endpoint) (x y client_window server_window : ℕ)
      (ec : IsEstablished here there x y client_window c.pcb)
      (es : IsEstablished there here y x server_window s.pcb)
      (asked : s.pcb.rcv_cmd.err_ch ≡ some receiver_ch) (room : length bytes ≤ s.pcb.rcv_cmd.room)
      (empty : s.pcb.rx_len ≡ 0) (some_text : 0 < length bytes)
      (small : length bytes ≤ payload_size_max) (positive : 0 < server_window)
      (xs : x + server_window < 4294967296) (xl : x + length bytes < 4294967296)
      (yc : y + client_window < 4294967296) where
    abbrev c1 : Machine W
    c1 = send ch bytes c

    abbrev s1 : Machine W
    s1 = arrive_from c1 s

    step : s1 ≡ (tx_helper_tcp ControlFlag.ack [] trigger_no none (taken bytes c s)).0
    step =
        arrive_from-send sends ch bytes c s here there x y client_window server_window ec es
          some_text small positive xs

    answer :
        let n = (tx_helper_tcp ControlFlag.ack [] trigger_no none (taken bytes c s)).0 in
        IsEstablished there here y (x + length bytes) buffer_size n.pcb
        × HasSent there here y (x + length bytes) ControlFlag.ack n
    answer = acknowledging (taken bytes c s) there here y (x + length bytes) buffer_size (
        take_text-IsEstablished (text_segment c.pcb.snd.nxt bytes c.pcb) bytes there here x y
          server_window s receiver_ch es ec.snd_nxt refl xl asked some_text empty
          (omega (arith, small)) room)

    sent-IsSending : IsSending bytes c.pcb.snd.nxt c c1
    sent-IsSending = send-IsSending sends ch bytes c ec.state ec.queue small

    c1_nxt : c1.pcb.snd.nxt ≡ x + length bytes
    c1_nxt =
        let at = ec.snd_nxt in ap (λ (q : Snd). q.nxt) sent-IsSending.snd ∙ omega (arith, at, xl)

    -- The acknowledgement of the text, as the sender takes it.
    pub arrive_from-taken : (seg : Segment) × (arrive_from s1 c1 ≡ update_window seg (acked seg c1))
    unfolding arrive_from
    arrive_from-taken =
        let una = ap (λ (q : Snd). q.una) sent-IsSending.snd ∙ ec.una in
        let at = answer.1.ack_of in
        (
          ack_segment y answer.1.block,
          ap (λ l. arrive_event l c1) (ap (λ (m : Machine W). m.io.trace) step ∙ answer.1.trace)
              ∙ arrive-ack_taken y answer.1.block there here client_window answer.1.rest c1
                  (sent-IsSending.state ∙ ec.state) (omega (arith, una, at, some_text))
                  (at ∙ sym c1_nxt) (ap (λ (q : Rcv). q.nxt) sent-IsSending.rcv ∙ ec.rcv_nxt)
                  (ap (λ (q : Rcv). q.wnd) sent-IsSending.rcv ∙ ec.rcv_wnd) yc,
        )

    -- With a RECEIVE of enough room pending on an established connection and nothing waiting there, the
    -- bytes of a Send of the peer are handed to that RECEIVE, once and as they were sent, and both sides are
    -- established as before, with the numbers moved on by their count: the text is acknowledged, the
    -- sender's queue is empty, and the receive window is open. The numbers and the windows must not wrap.
    pub send_delivers :
        IsEstablished here there (x + length bytes) y client_window (arrive_from s1 c1).pcb
        × IsEstablished there here y (x + length bytes) buffer_size s1.pcb
        × ((m : Event) × (s1.io.trace
              ≡ m ∷ notify receiver_ch none ∷ deliver (contents s.pcb ++ bytes) ∷ s.io.trace))
    unfolding arrive_from
    send_delivers =
        let seg = text_segment c.pcb.snd.nxt bytes c.pcb in
        let t = taken bytes c s in
        let sent = sent-IsSending in
        let at = ec.snd_nxt in
        let delivered =
          (take_text_delivers seg bytes s receiver_ch asked some_text (omega (arith, empty, small))
            (omega (arith, empty, room))).0 in
        (
          subst
              (λ l.
                IsEstablished here there (x + length bytes) y client_window (arrive_event l c1).pcb)
              (sym (ap (λ (m : Machine W). m.io.trace) step ∙ answer.1.trace))
              (arrive-ack y (x + length bytes) answer.1.block here there there here client_window x
                answer.1.rest c1 (sent.state ∙ ec.state) (sent.local ∙ ec.local)
                (sent.foreign ∙ ec.foreign) (ap (λ (q : Snd). q.una) sent.snd ∙ ec.una) c1_nxt
                (ap (λ (q : Rcv). q.nxt) sent.rcv ∙ ec.rcv_nxt)
                (ap (λ (q : Rcv). q.wnd) sent.rcv ∙ ec.rcv_wnd)
                (subst (λ k. All (λ e. e.seq ≡ k) c1.pcb.retx_queue) at sent.queue)
                (omega (arith, some_text)) yc answer.1.ack_of),
          subst (λ (m : Machine W). IsEstablished there here y (x + length bytes) buffer_size m.pcb)
              (sym step) answer.0,
          (
            reply_event ControlFlag.ack t.pcb.snd.nxt t.pcb,
            ap (λ (m : Machine W). m.io.trace) step
                ∙ (ack_reply t).1
                ∙ ap (λ l. reply_event ControlFlag.ack t.pcb.snd.nxt t.pcb ∷ l) delivered,
          ),
        )
