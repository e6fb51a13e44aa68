-- ===== src/Tcp/Peers/Handshake.antt =====
-- What LISTEN, SYN-SENT and SYN-RECEIVED of pkg/tcp make of the segments of a handshake.
use go_network.Base.{ℕ, ◌+◌, List, [], ◌∷◌, ◌≡◌, ap, arith, All, none, u16, u32, ◌∙◌}
use go_network.Udp.Endpoint.{Endpoint}
use go_network.Tcp.ControlFlag
use go_network.Tcp.ControlFlag.{is_set}
use go_network.Tcp.Header.{header2data}
use go_network.Tcp.Pcb.{
  Pcb, Machine, Env, Event, transmit, listen, syn_received, trigger_no, buffer_size,
}
use go_network.Tcp.Output.{tx_helper_tcp}
use go_network.Tcp.Segment.{Segment}
use go_network.Tcp.Handshake.{accept_syn, arrives_listen}
use go_network.Tcp.Registry.{segment_of}
use go_network.Tcp.Arrives.{segment_arrives, arrives_in}
use go_network.Tcp.Peers.{Sends, sent_header, tx_helper_tcp-Sent, arrive_event}

-- After the SYN with the number a from that peer has come to m in LISTEN, with the own number b.
pub record IsSynReceived {W : Type 0} (a b : ℕ) (peer : Endpoint) (m n : Machine W) : Type 0 where
  pub state : n.pcb.state ≡ syn_received
  pub local : n.pcb.local ≡ m.pcb.local
  pub foreign : n.pcb.foreign ≡ peer
  pub snd : n.pcb.snd ≡ record m.pcb.snd { una = b; nxt = u32 (b + 1) }
  pub rcv : n.pcb.rcv ≡ record m.pcb.rcv { nxt = u32 (a + 1); wnd = buffer_size }
  pub rx_len : n.pcb.rx_len ≡ u16 m.pcb.rx_len
  pub rcv_cmd : n.pcb.rcv_cmd ≡ m.pcb.rcv_cmd
  pub queue : All (λ e. e.seq ≡ b) n.pcb.retx_queue
  pub trace :
      n.io.trace
      ≡ transmit m.pcb.local peer
          (sent_header b ControlFlag.syn_ack [] (record m.pcb {
            foreign = peer;
            rcv = record m.pcb.rcv { nxt = u32 (a + 1); wnd = buffer_size };
          }))
          []
        ∷ m.io.trace

module _ {W : Type 0} ⦃env : Env W⦄ (sends : Sends env) where
  abbrev accepting : Segment → Endpoint → Machine W → Machine W
  accepting seg peer m = record {
    pcb = accept_syn seg [] 0 peer (env.rand_uint32 m.io.world).1 m.pcb;
    io = record m.io { world = (env.rand_uint32 m.io.world).0 };
  }

  arrive-listen :
      (a : ℕ) (p : Pcb) (src dst : Endpoint) (trace : List Event) (m : Machine W)
      → m.pcb.state ≡ listen
      → arrive_event (transmit src dst (sent_header a ControlFlag.syn [] p) [] ∷ trace) m
        ≡ (tx_helper_tcp ControlFlag.syn_ack [] trigger_no none
            (accepting (segment_of (sent_header a ControlFlag.syn [] p) 0) src m)).0
  unfolding arrive_event segment_arrives arrives_in arrives_listen is_set header2data
  arrive-listen a p src dst trace m l =
      ap
        (λ state.
          (arrives_in state (segment_of (sent_header a ControlFlag.syn [] p) 0) ControlFlag.syn [] 0
            src m).0)
        l

  pub arrive-IsSynReceived :
      (a : ℕ) (p : Pcb) (src dst : Endpoint) (trace : List Event) (m : Machine W)
      → m.pcb.state ≡ listen
      → m.pcb.retx_queue ≡ []
      → IsSynReceived a
          (env.rand_uint32 m.io.world).1
          src
          m
          (arrive_event (transmit src dst (sent_header a ControlFlag.syn [] p) [] ∷ trace) m)
  unfolding accept_syn is_set segment_of header2data
  arrive-IsSynReceived a p src dst trace m l q =
      let n = accepting (segment_of (sent_header a ControlFlag.syn [] p) 0) src m in
      let sent = tx_helper_tcp-Sent sends ControlFlag.syn_ack [] trigger_no none n (omega arith) in
      let same = sent.same in
      rw (arrive-listen a p src dst trace m l) (record {
        state = same.state;
        local = same.local;
        foreign = same.foreign;
        snd = same.snd;
        rcv = same.rcv;
        rx_len = same.rx_len ∙ omega arith;
        rcv_cmd = same.rcv_cmd;
        queue = sent.queue q;
        trace = sent.trace;
      })
