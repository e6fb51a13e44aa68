-- ===== src/Tcp/Arrives/Edges.antt =====
-- The state diagram of pkg/tcp: which states a segment can lead to.
use go_network.Base.{ℕ, List, [], Option, none, ◌≡◌, ◌⊎◌, inl, inr, refl, arith, Bool, true, false}
use go_network.Errors.{Error, connection_reset}
use go_network.Udp.Endpoint.{Endpoint}
use go_network.Tcp.Pcb.{
  PcbState, listen, syn_sent, syn_received, established, fin_wait1, fin_wait2, close_wait, closing,
  last_ack, time_wait, closed, Machine, Env, trigger_receive, trigger_open, trigger_close,
  trigger_no, transition,
}
use go_network.Tcp.ControlFlag
use go_network.Tcp.Queue.{queue_ack, signal_err}
use go_network.Tcp.Segment.{Segment, Flow, done, next, ◌>>=◌, finish, tx_bare}
use go_network.Tcp.Handshake.{
  arrives_closed, arrives_listen, arrives_syn_sent, syn_sent_syn, accept_syn, note_syn, establish,
}
use go_network.Tcp.Synchronized.{
  check_seq, check_rst, check_syn, take_ack, ack_of_fin, ack_common, ack_by_state, check_ack,
  check_urg, check_text, fin_by_state, check_fin, arrives_synchronized, restart_timer,
  update_window, store_text, take_text, past_fin, take_fin, is_unsynchronized,
}
use go_network.Tcp.Arrives.{segment_arrives, arrives_in}
use go_network.Tcp.Frames.{tx_helper_tcp-Same, signal_cmd-SameState}

-- The arrows that a segment can follow.
infix 40 ◌⟶◌
pub data ◌⟶◌ : PcbState → PcbState → Type 0 where
  stay : {s : PcbState} → s ⟶ s
  syn_in : listen ⟶ syn_received
  simultaneous : syn_sent ⟶ syn_received
  syn_acked : syn_sent ⟶ established
  open_acked : syn_received ⟶ established
  acked_fin_in : syn_received ⟶ close_wait
  fin_in : established ⟶ close_wait
  fin_acked : fin_wait1 ⟶ fin_wait2
  fin_crossed : fin_wait1 ⟶ closing
  fin_acked_fin_in : fin_wait1 ⟶ time_wait
  fin_last : fin_wait2 ⟶ time_wait
  crossed_acked : closing ⟶ time_wait
  to_closed : {s : PcbState} → (s ≡ listen → ⊥) → s ⟶ closed

-- The same as a table: what a segment's acknowledgement does in a synchronized state, what its FIN
-- does, and both.
abbrev pub same_state : PcbState → PcbState → Bool
same_state listen listen = true
same_state syn_sent syn_sent = true
same_state syn_received syn_received = true
same_state established established = true
same_state fin_wait1 fin_wait1 = true
same_state fin_wait2 fin_wait2 = true
same_state close_wait close_wait = true
same_state closing closing = true
same_state last_ack last_ack = true
same_state time_wait time_wait = true
same_state closed closed = true
same_state _ _ = false

abbrev ack_arrow : PcbState → PcbState → Bool
ack_arrow syn_received established = true
ack_arrow fin_wait1 fin_wait2 = true
ack_arrow closing time_wait = true
ack_arrow s t = same_state s t

abbrev arrow : PcbState → PcbState → Bool
arrow listen syn_received = true
arrow syn_sent syn_received = true
arrow syn_sent established = true
arrow syn_received established = true
arrow syn_received close_wait = true
arrow established close_wait = true
arrow fin_wait1 fin_wait2 = true
arrow fin_wait1 closing = true
arrow fin_wait1 time_wait = true
arrow fin_wait2 time_wait = true
arrow closing time_wait = true
arrow listen closed = false
arrow _ closed = true
arrow s t = same_state s t

ack_arrow-arrow : (s t : PcbState) → ack_arrow s t ≡ true → arrow s t ≡ true
ack_arrow-arrow s t h = ground arith

Flow-cases :
    {W : Type 0} (f : Flow W)
    → ((r : Machine W × Option Error) × (f ≡ done r)) ⊎ ((n : Machine W) × (f ≡ next n))
Flow-cases (done r) = inl (r, refl)
Flow-cases (next n) = inr (n, refl)

module _ {W : Type 0} ⦃env : Env W⦄ where
  ack_of_fin-arrow :
      (seg : Segment) (m : Machine W)
      → ack_arrow m.pcb.state (ack_of_fin m.pcb.state seg m).pcb.state ≡ true
  unfolding ack_of_fin
  ack_of_fin-arrow seg m = ground (arith, signal_cmd-SameState trigger_close m)

  take_ack_state :
      (seg : Segment) (m n : Machine W) → take_ack seg m ≡ next n → n.pcb.state ≡ m.pcb.state
  unfolding take_ack update_window queue_ack
  take_ack_state seg m n h = ground arith

  -- Where a step may leave the state, from the state s in which the segment arrived.
  abbrev Leads : PcbState → Flow W → Type 0
  Leads s (done r) = arrow s r.0.pcb.state ≡ true
  Leads s (next n) = ack_arrow s n.pcb.state ≡ true

  take_ack-Leads : (seg : Segment) (m : Machine W) → Leads m.pcb.state (take_ack seg m)
  unfolding take_ack update_window queue_ack
  take_ack-Leads seg m = ground (arith, tx_helper_tcp-Same ControlFlag.ack [] trigger_no none m)

  ack_common-Leads : (seg : Segment) (m : Machine W) → Leads m.pcb.state (ack_common seg m)
  unfolding ack_common
  ack_common-Leads seg m = elim (Flow-cases (take_ack seg m)) [
    | inl (r, e) ↦ rw e (rw e at (take_ack-Leads seg m))
    | inr (n, e) ↦ rw (e, ← take_ack_state seg m n e) (ack_of_fin-arrow seg n)
  ]

  via_established : (f : Flow W) → Leads established f → Leads syn_received f
  via_established (done r) h = ground arith
  via_established (next n) h = ground arith

  ack_by_state-Leads :
      (s : PcbState) (seg : Segment) (flag : ℕ) (m : Machine W)
      → m.pcb.state ≡ s
      → Leads s (ack_by_state s seg flag m)
  unfolding ack_by_state restart_timer tx_bare signal_err
  ack_by_state-Leads syn_received seg flag m h = ground (
    arith,
    via_established (ack_common seg (transition established m)),
    ack_common-Leads seg (transition established m),
  )
  ack_by_state-Leads established seg flag m h = rw (← h) (ack_common-Leads seg m)
  ack_by_state-Leads fin_wait1 seg flag m h = rw (← h) (ack_common-Leads seg m)
  ack_by_state-Leads fin_wait2 seg flag m h = rw (← h) (ack_common-Leads seg m)
  ack_by_state-Leads close_wait seg flag m h = rw (← h) (ack_common-Leads seg m)
  ack_by_state-Leads closing seg flag m h = rw (← h) (ack_common-Leads seg m)
  ack_by_state-Leads last_ack seg flag m h = ground arith
  ack_by_state-Leads time_wait seg flag m h = ground arith
  ack_by_state-Leads listen seg flag m h = ground arith
  ack_by_state-Leads syn_sent seg flag m h = ground arith
  ack_by_state-Leads closed seg flag m h = ground arith

  fin_by_state-arrow :
      (s t : PcbState) (seg : Segment) (m : Machine W)
      → ack_arrow s t ≡ true
      → m.pcb.state ≡ t
      → arrow s (fin_by_state t seg m).pcb.state ≡ true
  unfolding fin_by_state restart_timer
  fin_by_state-arrow s t seg m h k = ground arith

  take_fin-arrow :
      (s : PcbState) (seg : Segment) (m : Machine W)
      → ack_arrow s m.pcb.state ≡ true
      → arrow s (take_fin seg m).pcb.state ≡ true
  unfolding take_fin past_fin
  take_fin-arrow s seg m h =
      fin_by_state-arrow s (past_fin seg m).pcb.state seg (past_fin seg m)
        (rw (signal_cmd-SameState trigger_receive m).state h) refl

  check_fin-Leads :
      (s : PcbState) (seg : Segment) (flag : ℕ) (m : Machine W)
      → ack_arrow s m.pcb.state ≡ true
      → Leads s (check_fin seg flag m)
  unfolding check_fin
  check_fin-Leads s seg flag m h = ground (
    arith,
    ack_arrow-arrow s m.pcb.state,
    take_fin-arrow s seg m h,
    tx_helper_tcp-Same ControlFlag.ack [] trigger_no none (take_fin seg m),
  )

  take_text_state :
      (seg : Segment) (bytes : List ℕ) (len : ℕ) (m : Machine W)
      → (take_text seg bytes len m).pcb.state ≡ m.pcb.state
  unfolding take_text store_text
  take_text_state seg bytes len m =
      (signal_cmd-SameState trigger_receive
        (record m { pcb = store_text seg bytes len m.pcb })).state

  check_text-Leads :
      (s : PcbState) (seg : Segment) (bytes : List ℕ) (len : ℕ) (m : Machine W)
      → ack_arrow s m.pcb.state ≡ true
      → Leads s (check_text seg bytes len m)
  unfolding check_text
  check_text-Leads s seg bytes len m h = ground (
    arith,
    ack_arrow-arrow s m.pcb.state,
    take_text_state seg bytes len m,
    tx_helper_tcp-Same ControlFlag.ack [] trigger_no none (take_text seg bytes len m),
  )

  check_urg-Leads :
      (s : PcbState) (seg : Segment) (flag : ℕ) (m : Machine W)
      → ack_arrow s m.pcb.state ≡ true
      → Leads s (check_urg seg flag m)
  unfolding check_urg
  check_urg-Leads s seg flag m h = ground arith

  check_ack-Leads :
      (seg : Segment) (flag : ℕ) (m : Machine W) → Leads m.pcb.state (check_ack seg flag m)
  unfolding check_ack
  check_ack-Leads seg flag m = ground (arith, ack_by_state-Leads m.pcb.state seg flag m refl)

  early-Leads :
      (s : PcbState) (seg : Segment) (flag : ℕ) (m : Machine W)
      → m.pcb.state ≡ s
      → is_unsynchronized s ≡ false
      → Leads s (check_seq seg flag m >>= check_rst flag >>= check_syn flag)
  unfolding check_seq check_rst check_syn signal_err
  early-Leads s seg flag m h k = ground (
    arith,
    tx_helper_tcp-Same ControlFlag.ack [] trigger_no none m,
    tx_helper_tcp-Same ControlFlag.rst [] trigger_no none
        (transition closed (signal_err connection_reset m)),
  )

  -- The first checks pass the machine on as it is.
  early_next :
      (seg : Segment) (flag : ℕ) (m n : Machine W)
      → (check_seq seg flag m >>= check_rst flag >>= check_syn flag) ≡ next n
      → n ≡ m
  unfolding check_seq check_rst check_syn
  early_next seg flag m n h = ground arith

  bind-Leads :
      (s : PcbState) (f : Flow W) (g : Machine W → Flow W)
      → Leads s f
      → ((n : Machine W) → f ≡ next n → ack_arrow s n.pcb.state ≡ true → Leads s (g n))
      → Leads s (f >>= g)
  bind-Leads s (done r) g h k = h
  bind-Leads s (next n) g h k = k n refl h

  finish-arrow : (s : PcbState) (f : Flow W) → Leads s f → arrow s (finish f).0.pcb.state ≡ true
  finish-arrow s (done r) h = h
  finish-arrow s (next n) h = ack_arrow-arrow s n.pcb.state h

  synchronized-arrow :
      (seg : Segment) (flag : ℕ) (bytes : List ℕ) (len : ℕ) (m : Machine W)
      → is_unsynchronized m.pcb.state ≡ false
      → arrow m.pcb.state (arrives_synchronized seg flag bytes len m).0.pcb.state ≡ true
  unfolding arrives_synchronized
  synchronized-arrow seg flag bytes len m k =
      let s = m.pcb.state in
      finish-arrow s _ (
        bind-Leads s _ (check_fin seg flag)
          (bind-Leads s _ (check_text seg bytes len)
            (bind-Leads s _ (check_urg seg flag)
              (bind-Leads s _ (check_ack seg flag) (early-Leads s seg flag m refl k)
                (λ n e h. rw (early_next seg flag m n e) (check_ack-Leads seg flag m)))
              (λ n e h. check_urg-Leads s seg flag n h))
            (λ n e h. check_text-Leads s seg bytes len n h))
          (λ n e h. check_fin-Leads s seg flag n h))

  listen-arrow :
      (seg : Segment) (flag : ℕ) (bytes : List ℕ) (len : ℕ) (foreign : Endpoint) (m : Machine W)
      → m.pcb.state ≡ listen
      → arrow listen (arrives_listen seg flag bytes len foreign m).0.pcb.state ≡ true
  unfolding arrives_listen tx_bare accept_syn
  listen-arrow seg flag bytes len foreign m h =
      let (w, iss) = env.rand_uint32 m.io.world in
      ground (
        arith,
        tx_helper_tcp-Same ControlFlag.syn_ack [] trigger_no none (record {
          pcb = accept_syn seg bytes len foreign iss m.pcb;
          io = record m.io { world = w };
        }),
      )

  establish_state : (seg : Segment) (m : Machine W) → (establish seg m).pcb.state ≡ established
  unfolding establish
  establish_state seg m = (signal_cmd-SameState trigger_open _).state

  syn_sent-arrow :
      (acked : Bool) (seg : Segment) (m : Machine W)
      → arrow syn_sent (syn_sent_syn acked seg m).0.pcb.state ≡ true
  unfolding syn_sent_syn
  syn_sent-arrow acked seg m =
      let n = note_syn acked seg m in
      ground (
        arith,
        tx_helper_tcp-Same ControlFlag.ack [] trigger_no none (establish seg n),
        tx_helper_tcp-Same ControlFlag.syn_ack [] trigger_no none (transition syn_received n),
        establish_state seg n,
      )

  arrives-arrow :
      (s : PcbState) (seg : Segment) (flag : ℕ) (bytes : List ℕ) (len : ℕ) (foreign : Endpoint)
      (m : Machine W)
      → m.pcb.state ≡ s
      → arrow s (arrives_in s seg flag bytes len foreign m).0.pcb.state ≡ true
  unfolding arrives_in arrives_closed arrives_syn_sent tx_bare signal_err
  arrives-arrow closed seg flag bytes len foreign m h = ground arith
  arrives-arrow listen seg flag bytes len foreign m h = listen-arrow seg flag bytes len foreign m h
  arrives-arrow syn_sent seg flag bytes len foreign m h =
      ground (arith, syn_sent-arrow true seg m, syn_sent-arrow false seg m)
  arrives-arrow s seg flag bytes len foreign m h =
      rw (← h) (synchronized-arrow seg flag bytes len m (rw h refl))

arrow-⟶ : (s t : PcbState) → arrow s t ≡ true → s ⟶ t
arrow-⟶ s t h = grind (
  arith, stay, syn_in, simultaneous, syn_acked, open_acked, acked_fin_in, fin_in, fin_acked,
  fin_crossed, fin_acked_fin_in, fin_last, crossed_acked, to_closed,
)

-- Every segment, with any content and in any state, follows one arrow of the diagram.
pub segment_arrives-⟶ :
    {W : Type 0} ⦃env : Env W⦄ (seg : Segment) (flag : ℕ) (bytes : List ℕ) (len : ℕ)
    (foreign : Endpoint) (m : Machine W)
    → m.pcb.state ⟶ (segment_arrives seg flag bytes len foreign m).0.pcb.state
unfolding segment_arrives
segment_arrives-⟶ seg flag bytes len foreign m =
    arrow-⟶ m.pcb.state _ (arrives-arrow m.pcb.state seg flag bytes len foreign m refl)
