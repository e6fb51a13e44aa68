-- ===== src/Tcp/Invariant/Calls.antt =====
-- The user calls and the timer keep the invariant of pkg/tcp.
use go_network.Base.{
  inr, inl, Option-cases, length, ℕ, zero, suc, ◌≡◌, refl, arith, List, [], ◌∷◌, Bool, true, false,
  Option, none, some, IsU32, All,
}
use go_network.Errors.{Error, connection_reset, close_requested, user_timeout}
use go_network.Udp.Endpoint.{Endpoint}
use go_network.Tcp.ControlFlag
use go_network.Tcp.Pcb.{
  PcbState, listen, syn_sent, syn_received, established, fin_wait1, close_wait, last_ack, closed,
  Machine, Env, RetxEntry, Trigger, Chan, trigger_open, trigger_close, trigger_receive,
  trigger_send, transition, new_pcb,
}
use go_network.Tcp.Queue.{queue_ack, signal_err, remove_retx}
use go_network.Tcp.Output.{tx_helper_tcp}
use go_network.Tcp.Segment.{tx_bare}
use go_network.Tcp.Calls.{
  retry, after_retry, start_open, active_open, open_in, open_call, send_established, send_in, send,
  close_in, close, abort_in, abort, queue_receive, receive_open, receive_last, receive_in, receive,
  advance, tries,
}
use go_network.Tcp.Timer.{retransmit, entry_loop, tick_queue, tick_pcb}
use go_network.Tcp.Invariant.{
  IsSound, IsQueued, HasAnswer, tx_helper_tcp-IsSound, queue_ack-IsSound, signal_cmd-IsSound,
  signal_err-IsSound,
}

-- A control block just made satisfies it.
pub new_pcb-IsSound : (local : Endpoint) → IsSound (new_pcb local)
unfolding new_pcb
new_pcb-IsSound local = ground arith

module _ {W : Type 0} ⦃env : Env W⦄ where
  retry-IsSound :
      (n flag : ℕ) (bytes : List ℕ) (t : Trigger) (ch : Chan) (e : Option Error) (m : Machine W)
      → HasAnswer t (some ch)
      → IsSound m.pcb
      → IsSound (retry n flag bytes t ch e m).0.pcb
  unfolding retry
  retry-IsSound zero flag bytes t ch e m h s = s
  retry-IsSound (suc n) flag bytes t ch e m h s =
      let k = tx_helper_tcp-IsSound flag bytes t (some ch) m h s in
      let (m', e') = tx_helper_tcp flag bytes t (some ch) m in
      elim (Option-cases e') [
        | inl sent ↦ rw (sent, retry) k
        | inr (x, failed) ↦ rw (failed, retry) (retry-IsSound n flag bytes t ch (some x) m' h k)
      ]

  after_retry-IsSound :
      (ch : Chan) (good : Machine W → Machine W) (r : Machine W × Option Error)
      → ((n : Machine W) → IsSound n.pcb → IsSound (good n).pcb)
      → IsSound r.0.pcb
      → IsSound (after_retry ch good r).pcb
  unfolding after_retry
  after_retry-IsSound ch good (m, none) h s = h m s
  after_retry-IsSound ch good (m, some x) h s = s

  transition-IsSound : (t : PcbState) (m : Machine W) → IsSound m.pcb → IsSound (transition t m).pcb
  transition-IsSound t m s = ground arith

  advance-IsSound : (n : ℕ) (m : Machine W) → IsSound m.pcb → IsSound (advance n m).pcb
  advance-IsSound n m s = ground arith

  closed-IsSound :
      (e : Error) (m : Machine W) → IsSound m.pcb → IsSound (transition closed (signal_err e m)).pcb
  closed-IsSound e m s = transition-IsSound closed (signal_err e m) (signal_err-IsSound e m s)

  close_try-IsSound :
      (t : PcbState) (ch : Chan) (m : Machine W)
      → IsSound m.pcb
      → IsSound
          (after_retry ch
            (λ n. advance 1 (transition t n))
            (retry tries ControlFlag.ack_fin [] trigger_close ch none m)).pcb
  close_try-IsSound t ch m s =
      after_retry-IsSound ch (λ n. advance 1 (transition t n)) _
        (λ n k. advance-IsSound 1 (transition t n) (transition-IsSound t n k))
        (retry-IsSound tries ControlFlag.ack_fin [] trigger_close ch none m tt s)

  close_in-IsSound :
      (t : PcbState) (ch : Chan) (m : Machine W) → IsSound m.pcb → IsSound (close_in t ch m).pcb
  unfolding close_in
  close_in-IsSound listen ch m s = closed-IsSound close_requested m s
  close_in-IsSound syn_sent ch m s = closed-IsSound close_requested m s
  close_in-IsSound syn_received ch m s = close_try-IsSound fin_wait1 ch m s
  close_in-IsSound established ch m s = close_try-IsSound fin_wait1 ch m s
  close_in-IsSound close_wait ch m s = close_try-IsSound last_ack ch m s
  close_in-IsSound closed ch m s = s
  close_in-IsSound _ ch m s = s

  pub close-IsSound : (ch : Chan) (m : Machine W) → IsSound m.pcb → IsSound (close ch m).pcb
  unfolding close
  close-IsSound ch m s = close_in-IsSound m.pcb.state ch m s

  pub abort-IsSound : (m : Machine W) → IsSound m.pcb → IsSound (abort m).0.pcb
  unfolding abort abort_in tx_bare
  abort-IsSound m s = ground (arith, closed-IsSound connection_reset m s)

  send_established-IsSound :
      (ch : Chan) (bytes : List ℕ) (m : Machine W)
      → IsSound m.pcb
      → IsSound (send_established ch bytes m).pcb
  unfolding send_established
  send_established-IsSound ch bytes m s =
      after_retry-IsSound ch (advance (length bytes)) _ (λ n k. advance-IsSound (length bytes) n k)
        (retry-IsSound tries ControlFlag.ack bytes trigger_send ch none _ tt (ground arith))

  send_in-IsSound :
      (t : PcbState) (ch : Chan) (bytes : List ℕ) (m : Machine W)
      → IsSound m.pcb
      → IsSound (send_in t ch bytes m).pcb
  unfolding send_in
  send_in-IsSound established ch bytes m s = send_established-IsSound ch bytes m s
  send_in-IsSound close_wait ch bytes m s = send_established-IsSound ch bytes m s
  send_in-IsSound _ ch bytes m s = ground arith

  pub send-IsSound :
      (ch : Chan) (bytes : List ℕ) (m : Machine W) → IsSound m.pcb → IsSound (send ch bytes m).pcb
  unfolding send
  send-IsSound ch bytes m s = send_in-IsSound m.pcb.state ch bytes m s

  module _ (random : (w : W) → IsU32 (env.rand_uint32 w).1) where
    active_open-IsSound :
        (ch : Chan) (foreign : Endpoint) (timeout : ℕ) (m : Machine W)
        → IsSound m.pcb
        → IsSound (active_open ch foreign timeout m).pcb
    unfolding active_open start_open
    active_open-IsSound ch foreign timeout m s =
        let (w, iss) = env.rand_uint32 m.io.world in
        let r : IsU32 iss = random m.io.world in
        let n : Machine W = record {
          pcb = start_open foreign timeout iss m.pcb;
          io = record m.io { world = w };
        } in
        let k : IsSound n.pcb = ground arith in
        ground (
          arith,
          after_retry-IsSound ch (transition syn_sent)
              (retry tries ControlFlag.syn [] trigger_open ch none n)
              (λ l q. transition-IsSound syn_sent l q)
              (retry-IsSound tries ControlFlag.syn [] trigger_open ch none n tt k),
        )

    open_in-IsSound :
        (t : PcbState) (ch : Chan) (foreign : Endpoint) (active : Bool) (timeout : ℕ)
        (m : Machine W)
        → IsSound m.pcb
        → IsSound (open_in t ch foreign active timeout m).pcb
    unfolding open_in
    open_in-IsSound closed ch foreign true timeout m s = active_open-IsSound ch foreign timeout m s
    open_in-IsSound closed ch foreign false timeout m s = ground arith
    open_in-IsSound listen ch foreign true timeout m s = active_open-IsSound ch foreign timeout m s
    open_in-IsSound listen ch foreign false timeout m s = ground arith
    open_in-IsSound _ ch foreign active timeout m s = s

    pub open_call-IsSound :
        (ch : Chan) (foreign : Endpoint) (active : Bool) (timeout : ℕ) (m : Machine W)
        → IsSound m.pcb
        → IsSound (open_call ch foreign active timeout m).pcb
    unfolding open_call
    open_call-IsSound ch foreign active timeout m s =
        open_in-IsSound m.pcb.state ch foreign active timeout m s

module _ {W : Type 0} where
  queue_receive-IsSound :
      (ch : Chan) (room : ℕ) (m : Machine W) → IsSound m.pcb → IsSound (queue_receive ch room m).pcb
  unfolding queue_receive
  queue_receive-IsSound ch room m s = signal_cmd-IsSound trigger_receive _ (ground arith)

  pub receive-IsSound :
      (ch : Chan) (room : ℕ) (m : Machine W) → IsSound m.pcb → IsSound (receive ch room m).pcb
  unfolding receive receive_in receive_open receive_last
  receive-IsSound ch room m s = ground (arith, queue_receive-IsSound ch room m s)

-- Entries that were never counted as sent again are not given up.
module _ {W : Type 0} ⦃env : Env W⦄ where
  retransmit-IsSound :
      (entry : RetxEntry) (m : Machine W) → IsSound m.pcb → IsSound (retransmit entry m).pcb
  unfolding retransmit
  retransmit-IsSound entry m s = ground arith

  entry_loop-IsSound :
      (i : ℕ) (es : List RetxEntry) (m : Machine W)
      → All IsQueued es
      → IsSound m.pcb
      → ((entry_loop i es m).0 ≡ []) × IsSound (entry_loop i es m).1.pcb
  unfolding entry_loop
  entry_loop-IsSound i [] m q s = (refl, s)
  entry_loop-IsSound i (e ∷ es) m q s =
      let (w1, t1) = env.time_now m.io.world in
      let m1 : Machine W = record m { io = record m.io { world = w1 } } in
      let (w2, t2) = env.time_now w1 in
      let m2 : Machine W = record m { io = record m.io { world = w2 } } in
      let count : e.retx_count ≡ 0 = q.0.count in
      ground (
        arith,
        closed-IsSound user_timeout m1 s,
        entry_loop-IsSound (suc i) es (retransmit e m2) q.1 (retransmit-IsSound e m2 s),
        entry_loop-IsSound (suc i) es m2 q.1 s,
      )

  -- The entries that the timer removes for too many retransmissions: none.
  pub tick_queue-none :
      (m : Machine W)
      → IsSound m.pcb
      → (entry_loop 0 (queue_ack m).pcb.retx_queue (queue_ack m)).0 ≡ []
  tick_queue-none m s =
      (entry_loop-IsSound 0 (queue_ack m).pcb.retx_queue (queue_ack m) (queue_ack-IsSound m s).queue
        (queue_ack-IsSound m s)).0

  tick_queue-IsSound : (m : Machine W) → IsSound m.pcb → IsSound (tick_queue m).pcb
  unfolding tick_queue remove_retx
  tick_queue-IsSound m s =
      let k = queue_ack-IsSound m s in
      let r = entry_loop-IsSound 0 (queue_ack m).pcb.retx_queue (queue_ack m) k.queue k in
      rw r.0 r.1

  pub tick_pcb-IsSound : (m : Machine W) → IsSound m.pcb → IsSound (tick_pcb m).pcb
  unfolding tick_pcb
  tick_pcb-IsSound m s =
      let (w, t) = env.time_now m.io.world in
      let n : Machine W = record m { io = record m.io { world = w } } in
      ground
        (arith, tick_queue-IsSound m s, tick_queue-IsSound n s, closed-IsSound user_timeout n s)
