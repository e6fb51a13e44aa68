-- ===== src/Tcp/Peers/Established.antt =====
-- The segments that establish a connection in SYN-SENT and SYN-RECEIVED of pkg/tcp.
use go_network.Base.{
  ℕ, ◌+◌, List, [], ◌∷◌, ◌≡◌, ◌<◌, refl, sym, ap, ◌∙◌, arith, All, ltb, leb, not, keep, true,
  Option, none, u32,
}
use go_network.Errors.{Error}
use go_network.Udp.Endpoint.{Endpoint}
use go_network.Tcp.ControlFlag
use go_network.Tcp.ControlFlag.{is_set}
use go_network.Tcp.Header.{header2data}
use go_network.Tcp.Pcb.{
  Pcb, Snd, Rcv, Machine, Env, Event, transmit, syn_received, established, trigger_open, trigger_no,
  RetxEntry, buffer_size,
}
use go_network.Tcp.Output.{tx_helper_tcp}
use go_network.Tcp.Segment.{Segment, acceptable, in_window}
use go_network.Tcp.Queue.{queue_ack, signal_cmd, signal_queue}
use go_network.Tcp.Queue.Remove.{is_acked, is_of, queue_ack_lem, signal_queue_lem}
use go_network.Tcp.Handshake.{arrives_syn_sent, syn_sent_syn, note_syn, establish}
use go_network.Tcp.Synchronized.{
  arrives_synchronized, check_seq, check_rst, check_syn, check_ack, ack_by_state, ack_common,
  take_ack, ack_of_fin, update_window, check_urg, check_text, check_fin,
}
use go_network.Tcp.Registry.{segment_of}
use go_network.Tcp.Arrives.{segment_arrives, arrives_in}
use mathlib.Core.Path.{subst}
use go_network.Tcp.Arrives.Outcomes.{ack_reply, reply_event}
use go_network.Tcp.Peers.Handshake.{IsSynReceived}
use go_network.Tcp.Peers.Opening.{IsSynSent}
use go_network.Tcp.Peers.{sent_header, arrive_event, arrive_from}

-- An established connection, of which nothing is unacknowledged.
pub record IsEstablished (here there : Endpoint) (next_sent next_received window : ℕ) (p : Pcb)
    : Type 0 where
  pub state : p.state ≡ established
  pub local : p.local ≡ here
  pub foreign : p.foreign ≡ there
  pub una : p.snd.una ≡ next_sent
  pub snd_nxt : p.snd.nxt ≡ next_sent
  pub rcv_nxt : p.rcv.nxt ≡ next_received
  pub rcv_wnd : p.rcv.wnd ≡ window
  pub queue : p.retx_queue ≡ []

-- The last thing that a machine did was to send that segment without text.
pub record HasSent {W : Type 0} (here there : Endpoint) (seq ack flag : ℕ) (n : Machine W)
    : Type 0 where
  pub block : Pcb
  pub ack_of : block.rcv.nxt ≡ ack
  pub rest : List Event
  pub trace : n.io.trace ≡ transmit here there (sent_header seq flag [] block) [] ∷ rest

pub keep-acked :
    (a una : ℕ) (es : List RetxEntry)
    → a < una
    → All (λ e. e.seq ≡ a) es
    → keep (λ e. not (is_acked una e)) es ≡ []
keep-acked a una [] h q = refl
keep-acked a una (e ∷ es) h (q, qs) = ground (arith, keep-acked a una es h qs)

module _ {W : Type 0} ⦃env : Env W⦄ where
  establishing : Segment → Machine W → Machine W
  establishing seg m = establish seg (note_syn true seg m)

  syn_sent-ack :
      (seg : Segment) (m : Machine W)
      → leb m.pcb.snd.una seg.ack ≡ true
      → leb seg.ack m.pcb.snd.nxt ≡ true
      → ltb m.pcb.iss seg.ack ≡ true
      → arrives_syn_sent seg ControlFlag.syn_ack m
        ≡ tx_helper_tcp ControlFlag.ack [] trigger_no none (establishing seg m)
  unfolding establishing arrives_syn_sent is_set syn_sent_syn note_syn queue_ack
  syn_sent-ack seg m u n i = ground arith

  establishing-IsEstablished :
      (a : ℕ) (foreign : Endpoint) (k m : Machine W) (seg : Segment)
      → a + 1 < 4294967296
      → IsSynSent a foreign k m
      → seg.ack ≡ a + 1
      → IsEstablished k.pcb.local foreign
          (a + 1)
          (u32 (seg.seq + 1))
          k.pcb.rcv.wnd
          (establishing seg m).pcb
  unfolding establishing establish note_syn signal_cmd signal_queue queue_ack
  establishing-IsEstablished a foreign k m seg h s e =
      let p = m.pcb in
      let noted : Machine W = record m {
        pcb = record p {
          rcv = record p.rcv { nxt = u32 (seg.seq + 1) };
          irs = seg.seq;
          snd = record p.snd { una = seg.ack };
        };
      } in
      let acked : (queue_ack noted).pcb.retx_queue ≡ [] =
        (queue_ack_lem noted).0 ∙ keep-acked a seg.ack p.retx_queue (omega (arith, e)) s.queue in
      record {
        state = refl;
        local = s.local;
        foreign = s.foreign_set;
        una = e;
        snd_nxt = ap (λ (q : Snd). q.nxt) s.snd ∙ omega (arith, h);
        rcv_nxt = refl;
        rcv_wnd = ap (λ (q : Rcv). q.wnd) s.rcv;
        queue =
            signal_queue_lem trigger_open (record (queue_ack noted) {
              pcb = record (queue_ack noted).pcb {
                state = established;
                snd = record (queue_ack noted).pcb.snd {
                  wnd = seg.wnd;
                  wl1 = seg.seq;
                  wl2 = seg.ack;
                };
              };
            })
            ∙ ap (keep (λ e. not (is_of trigger_open e))) acked;
      }

  pub acknowledging :
      (x : Machine W) (here there : Endpoint) (seq ack window : ℕ)
      → IsEstablished here there seq ack window x.pcb
      → let n = (tx_helper_tcp ControlFlag.ack [] trigger_no none x).0 in
        IsEstablished here there seq ack window n.pcb × HasSent here there seq ack ControlFlag.ack n
  unfolding reply_event
  acknowledging x here there seq ack window est =
      let (same, trace) = ack_reply x in
      (
        subst (IsEstablished here there seq ack window) (sym same) est,
        record {
          block = x.pcb;
          ack_of = est.rcv_nxt;
          rest = x.io.trace;
          trace = trace ∙ (λ i.
              transmit (est.local i) (est.foreign i)
                (sent_header (est.snd_nxt i) ControlFlag.ack [] x.pcb) []
              ∷ x.io.trace);
        },
      )

  -- In SYN-SENT, the SYN of the peer that acknowledges the own SYN.
  pub arrive-syn_sent :
      (a b : ℕ) (foreign : Endpoint) (k m : Machine W) (p : Pcb) (src dst : Endpoint)
      (trace : List Event)
      → a + 1 < 4294967296
      → IsSynSent a foreign k m
      → p.rcv.nxt ≡ a + 1
      → let n =
          arrive_event (transmit src dst (sent_header b ControlFlag.syn_ack [] p) [] ∷ trace) m in
        IsEstablished k.pcb.local foreign (a + 1) (u32 (b + 1)) k.pcb.rcv.wnd n.pcb
        × HasSent k.pcb.local foreign (a + 1) (u32 (b + 1)) ControlFlag.ack n
  unfolding arrive_event segment_arrives arrives_in is_set header2data
  arrive-syn_sent a b foreign k m p src dst trace h s e =
      let seg = segment_of (sent_header b ControlFlag.syn_ack [] p) 0 in
      let at : seg.ack ≡ a + 1 = unfold segment_of in e in
      let x = establishing seg m in
      let est = establishing-IsEstablished a foreign k m seg h s at in
      let step : arrive_event (transmit src dst (sent_header b ControlFlag.syn_ack [] p) [] ∷ trace)
            m
          ≡ (tx_helper_tcp ControlFlag.ack [] trigger_no none x).0 =
        ap (λ state. (arrives_in state seg ControlFlag.syn_ack [] 0 src m).0) s.state
        ∙ ap (λ (r : Machine W × Option Error). r.0)
            (syn_sent-ack seg m (let u = ap (λ (q : Snd). q.una) s.snd in ground (arith, u, at))
              (let u = ap (λ (q : Snd). q.nxt) s.snd in ground (arith, u, at, h))
              (let u = s.iss in ground (arith, u, at))) in
      rw (step) (
        acknowledging x k.pcb.local foreign (a + 1) (u32 (b + 1)) k.pcb.rcv.wnd
          (unfold segment_of in est))

  -- The machine of SYN-RECEIVED behind the acknowledgement of its SYN.
  unfoldable pub acked : Segment → Machine W → Machine W
  acked seg m = queue_ack (record m {
    pcb = record m.pcb { state = established; snd = record m.pcb.snd { una = seg.ack } };
  })

  syn_received-ack :
      (seg : Segment) (peer : Endpoint) (m : Machine W)
      → m.pcb.state ≡ syn_received
      → acceptable seg m.pcb ≡ true
      → ltb m.pcb.snd.una seg.ack ≡ true
      → leb seg.ack m.pcb.snd.nxt ≡ true
      → segment_arrives seg ControlFlag.ack [] 0 peer m ≡ (update_window seg (acked seg m), none)
  unfolding segment_arrives arrives_synchronized check_seq check_rst check_syn check_ack
      ack_by_state ack_common take_ack ack_of_fin check_urg check_text check_fin is_set acked
      update_window queue_ack
  syn_received-ack seg peer m s ok u n =
      ap (λ state. arrives_in state seg ControlFlag.ack [] 0 peer m) s
      ∙ (unfold arrives_in in ground (arith, s, ok, u, n))

  pub update_window-IsEstablished :
      (seg : Segment) (here there : Endpoint) (seq ack window : ℕ) (x : Machine W)
      → IsEstablished here there seq ack window x.pcb
      → IsEstablished here there seq ack window (update_window seg x).pcb
  unfolding update_window
  update_window-IsEstablished seg here there seq ack window x e = record {
    state = let f = e.state in ground (arith, f);
    local = let f = e.local in ground (arith, f);
    foreign = let f = e.foreign in ground (arith, f);
    una = let f = e.una in ground (arith, f);
    snd_nxt = let f = e.snd_nxt in ground (arith, f);
    rcv_nxt = let f = e.rcv_nxt in ground (arith, f);
    rcv_wnd = let f = e.rcv_wnd in ground (arith, f);
    queue = let f = e.queue in ground (arith, f);
  }

  module _ (a b : ℕ) (peer : Endpoint) (k m n : Machine W) (here there : Endpoint)
      (small : a + 65536 < 4294967296) (h : b + 1 < 4294967296) (s : IsSynReceived a b peer k m)
      (sent : HasSent here there (a + 1) (b + 1) ControlFlag.ack n) where
    abbrev seg : Segment
    seg = record {
      seq = a + 1;
      ack = sent.block.rcv.nxt;
      len = 0;
      wnd = sent.block.rcv.wnd;
      up = sent.block.rcv.up;
    }

    arrive-acked : arrive_from n m ≡ update_window seg (acked seg m)
    unfolding arrive_from arrive_event segment_of header2data is_set
    arrive-acked =
        let una = ap (λ (q : Snd). q.una) s.snd in
        let nxt = ap (λ (q : Snd). q.nxt) s.snd in
        let wnd = ap (λ (q : Rcv). q.wnd) s.rcv in
        let next = ap (λ (q : Rcv). q.nxt) s.rcv in
        let at = sent.ack_of in
        let ok : acceptable seg m.pcb ≡ true =
          unfold acceptable in_window in ground (arith, wnd, next, small) in
        ap (λ t. arrive_event t m) sent.trace
        ∙ ap (λ (r : Machine W × Option Error). r.0)
            (syn_received-ack seg here m s.state ok (ground (arith, una, at))
              (ground (arith, nxt, at, h)))

    -- In SYN-RECEIVED, the acknowledgement of the own SYN, as it is taken.
    pub arrive-syn_received_taken :
        (seg : Segment) × (arrive_from n m ≡ update_window seg (acked seg m))
    arrive-syn_received_taken = (seg, arrive-acked)

    pub arrive-syn_received :
        IsEstablished k.pcb.local peer (b + 1) (a + 1) buffer_size (arrive_from n m).pcb
    arrive-syn_received =
        let una = ap (λ (q : Snd). q.una) s.snd in
        let nxt = ap (λ (q : Snd). q.nxt) s.snd in
        let wnd = ap (λ (q : Rcv). q.wnd) s.rcv in
        let next = ap (λ (q : Rcv). q.nxt) s.rcv in
        let at = sent.ack_of in
        rw arrive-acked (
          update_window-IsEstablished seg k.pcb.local peer (b + 1) (a + 1) buffer_size (acked seg m)
            (unfold acked queue_ack in
              record {
                state = refl;
                local = s.local;
                foreign = s.foreign;
                una = at;
                snd_nxt = nxt ∙ omega (arith, h);
                rcv_nxt = next ∙ omega (arith, small);
                rcv_wnd = wnd;
                queue =
                    (queue_ack_lem (record m {
                      pcb = record m.pcb {
                        state = established;
                        snd = record m.pcb.snd { una = seg.ack };
                      };
                    })).0
                    ∙ keep-acked b seg.ack m.pcb.retx_queue (omega (arith, at)) s.queue;
              }))
