-- ===== src/Tcp/Peers/Opening.antt =====
-- The active OPEN, and what LISTEN and SYN-SENT make of the first segments, in pkg/tcp.
use go_network.Base.{
  ℕ, suc, ◌+◌, List, [], ◌∷◌, ◌≡◌, refl, ap, ◌∙◌, arith, All, ◌==◌, true, false, Option, some, none,
  u32,
}
use go_network.Errors.{Error}
use go_network.Udp.Endpoint.{Endpoint}
use go_network.Tcp.ControlFlag
use go_network.Tcp.ControlFlag.{is_set}
use go_network.Tcp.Pcb.{
  Machine, Env, transmit, closed, syn_sent, Trigger, trigger_open, Chan, transition,
}
use go_network.Tcp.Output.{tx_helper_tcp}
use go_network.Tcp.Calls.{open_call, open_in, active_open, start_open, retry, after_retry}
use go_network.Tcp.Peers.{Sends, sent_header, tx_helper_tcp-Sent}

-- After an active OPEN of m with the initial sequence number a.
pub record IsSynSent {W : Type 0} (a : ℕ) (foreign : Endpoint) (m n : Machine W) : Type 0 where
  pub state : n.pcb.state ≡ syn_sent
  pub local : n.pcb.local ≡ m.pcb.local
  pub foreign_set : n.pcb.foreign ≡ foreign
  pub snd : n.pcb.snd ≡ record m.pcb.snd { una = a; nxt = u32 (a + 1) }
  pub iss : n.pcb.iss ≡ a
  pub rcv : n.pcb.rcv ≡ m.pcb.rcv
  pub rx_len : n.pcb.rx_len ≡ m.pcb.rx_len
  pub queue : All (λ e. e.seq ≡ a) n.pcb.retx_queue
  pub trace :
      n.io.trace
      ≡ transmit m.pcb.local foreign
          (sent_header a ControlFlag.syn [] (record m.pcb { foreign = foreign }))
          []
        ∷ m.io.trace

module _ {W : Type 0} ⦃env : Env W⦄ (sends : Sends env) where
  -- The machine of an active OPEN before its segment.
  abbrev opening : Endpoint → ℕ → Machine W → Machine W
  opening foreign timeout m = record {
    pcb = start_open foreign timeout (env.rand_uint32 m.io.world).1 m.pcb;
    io = record m.io { world = (env.rand_uint32 m.io.world).0 };
  }

  pub retry-good :
      (n flag : ℕ) (bytes : List ℕ) (why : Trigger) (ch : Chan) (e : Option Error) (m : Machine W)
      → (tx_helper_tcp flag bytes why (some ch) m).1 ≡ none
      → retry (suc n) flag bytes why ch e m ≡ ((tx_helper_tcp flag bytes why (some ch) m).0, none)
  unfolding retry
  retry-good n flag bytes why ch e m good = rw (retry, good) refl

  open_call-sent :
      (ch : Chan) (foreign : Endpoint) (timeout : ℕ) (m : Machine W)
      → m.pcb.state ≡ closed
      → (foreign.addr == 0) ≡ false
      → open_call ch foreign true timeout m
        ≡ transition syn_sent
            (tx_helper_tcp ControlFlag.syn [] trigger_open (some ch) (opening foreign timeout m)).0
  unfolding open_call open_in active_open after_retry
  open_call-sent ch foreign timeout m c f =
      let n = opening foreign timeout m in
      let good =
        (tx_helper_tcp-Sent sends ControlFlag.syn [] trigger_open (some ch) n (omega arith)).good in
      ap (λ state. open_in state ch foreign true timeout m) c
      ∙ rw (f, retry-good 2 ControlFlag.syn [] trigger_open ch none n good) refl

  pub open_call-IsSynSent :
      (ch : Chan) (foreign : Endpoint) (timeout : ℕ) (m : Machine W)
      → m.pcb.state ≡ closed
      → m.pcb.retx_queue ≡ []
      → (foreign.addr == 0) ≡ false
      → IsSynSent (env.rand_uint32 m.io.world).1 foreign m (open_call ch foreign true timeout m)
  unfolding start_open is_set
  open_call-IsSynSent ch foreign timeout m c q f =
      let n = opening foreign timeout m in
      let sent =
        tx_helper_tcp-Sent sends ControlFlag.syn [] trigger_open (some ch) n (omega arith) in
      let same = sent.same in
      rw (open_call-sent ch foreign timeout m c f) (record {
        state = refl;
        local = same.local;
        foreign_set = same.foreign;
        snd = same.snd;
        iss = same.iss;
        rcv = same.rcv;
        rx_len = same.rx_len;
        queue = sent.queue q;
        trace = sent.trace;
      })
