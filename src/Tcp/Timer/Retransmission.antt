-- ===== src/Tcp/Timer/Retransmission.antt =====
-- The retransmissions of pkg/tcp/timer.go: what a round of the timer does to the queue, and the bounds of
-- the retransmission timeout.
use go_network.Base.{
  ◌∙◌, ap, ℕ, suc, ◌*◌, ◌^◌, ◌≡◌, ◌≤◌, ◌<◌, ◌⊎◌, inl, inr, refl, arith, List, [], ◌∷◌, not, some,
  keep,
}
use go_network.Errors.{retransmission_limit}
use go_network.Tcp.Pcb.{
  send_if, closed, Pcb, Machine, Env, Io, RetxEntry, calculate_rto, lbound, ubound,
}
use go_network.Tcp.Queue.{queue_ack, remove_retx}
use go_network.Tcp.Queue.Remove.{is_acked, queue_ack_lem}
use go_network.Tcp.Timer.{retransmit, entry_loop, tick_queue}
use go_network.Tcp.Invariant.{IsSound}
use go_network.Tcp.Invariant.Calls.{tick_queue-none}

-- The retransmission timeout always lies between one second and one minute, whatever round trip is
-- measured; and where estimate and measurement are at most 2^58 ns (9 years), no intermediate value
-- reaches 2^63 and the new estimate is again at most 2^58 ns.
pub calculate_rto_bounds :
    {W : Type 0} (rtt : ℕ) (io : Io W)
    → io.srtt ≤ 2 ^ 58
    → rtt ≤ 2 ^ 58
    → (lbound ≤ (calculate_rto rtt io).rto)
      × ((calculate_rto rtt io).rto ≤ ubound)
      × ((calculate_rto rtt io).srtt ≤ 2 ^ 58)
      × (7 * io.srtt < 2 ^ 63)
      × (3 * rtt < 2 ^ 63)
      × (17 * (calculate_rto rtt io).srtt < 2 ^ 63)
unfolding calculate_rto
calculate_rto_bounds rtt io h k = ground arith

module _ {W : Type 0} ⦃env : Env W⦄ where
  retransmit-queue : (e : RetxEntry) (m : Machine W) → (retransmit e m).pcb ≡ m.pcb
  unfolding retransmit
  retransmit-queue e m = refl

  -- The loop leaves the control block as it is, or closes the connection.
  entry_loop-pcb :
      (i : ℕ) (es : List RetxEntry) (m : Machine W)
      → ((entry_loop i es m).1.pcb ≡ m.pcb) ⊎ ((entry_loop i es m).1.pcb.state ≡ closed)
  unfolding entry_loop
  entry_loop-pcb i [] m = inl refl
  entry_loop-pcb i (e ∷ es) m =
      let (w1, t1) = env.time_now m.io.world in
      let m1 : Machine W = record m { io = record m.io { world = w1 } } in
      let (w2, t2) = env.time_now w1 in
      let m2 : Machine W = record m { io = record m.io { world = w2 } } in
      let told : Machine W = record m2 {
        io = send_if e.err_ch (some retransmission_limit) m2.io;
      } in
      ground (
        arith,
        entry_loop-pcb (suc i) es (retransmit e m2),
        entry_loop-pcb (suc i) es m2,
        entry_loop-pcb (suc i) es told,
        retransmit-queue e m2,
      )

  -- In a sound control block a round of the timer either closes the connection or leaves in the queue
  -- exactly the entries whose first sequence number is not below SND.UNA, with the counts and times that
  -- they had: no retransmission is ever counted, and no entry is given up.
  pub tick_queue-keep :
      (m : Machine W)
      → IsSound m.pcb
      → ((tick_queue m).pcb.state ≡ closed)
        ⊎ ((tick_queue m).pcb.retx_queue
            ≡ keep (λ e. not (is_acked m.pcb.snd.una e)) m.pcb.retx_queue)
  unfolding tick_queue remove_retx
  tick_queue-keep m s =
      rw (tick_queue-none m s) (elim (entry_loop-pcb 0 (queue_ack m).pcb.retx_queue (queue_ack m)) [
        | inl same ↦ inr (ap (λ (p : Pcb). p.retx_queue) same ∙ (queue_ack_lem m).0)
        | inr shut ↦ inl shut
      ])
