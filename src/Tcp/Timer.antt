-- ===== src/Tcp/Timer.antt =====
-- The body of tcpTimer's loop in pkg/tcp/timer.go. The loop variable `entry` is a copy of the queue's
-- element, so that what the body assigns to it is lost.
pub mod Retransmission
use go_network.Base.{ℕ, suc, ◌+◌, ◌*◌, ◌^◌, List, [], ◌∷◌, some, Bool, true, false, ltb, leb, u8}
use go_network.Errors.{user_timeout, retransmission_limit}
use go_network.Tcp.Pcb.{
  RetxEntry, PcbState, time_wait, closed, Pcb, Machine, Io, Env, send_if, transition, msl,
}
use go_network.Tcp.Queue.{remove_retx, queue_ack, signal_err}
use go_network.Tcp.Output.{tx_handler}

abbrev pub max_retx_count : ℕ
max_retx_count = 3

abbrev pub is_time_wait : PcbState → Bool
is_time_wait time_wait = true
is_time_wait _ = false

module _ {W : Type 0} ⦃env : Env W⦄ where
  -- `time.Now()`.
  abbrev now : Machine W → Machine W × ℕ
  now m = let (w, t) = env.time_now m.io.world in (record m { io = record m.io { world = w } }, t)

  -- The segment is sent again with the window `snd.wnd`; an error is only logged. The clock is read
  -- once more for the copy's `last`.
  unfoldable pub retransmit : RetxEntry → Machine W → Machine W
  retransmit entry m =
      let p = m.pcb in
      let io =
        (tx_handler p.local p.foreign entry.bytes entry.seq p.rcv.nxt entry.flag p.snd.wnd 0
          m.io).0 in
      (now (record m { io = io })).0

  -- The loop over the retransmission queue from index i: the indexes to delete.
  unfoldable pub entry_loop : ℕ → List RetxEntry → Machine W → List ℕ × Machine W
  unfolding retransmit
  entry_loop i [] m = ([], m)
  entry_loop i (entry ∷ entries) m =
      let (m1, t1) = now m in
      elim (ltb (entry.first + m.pcb.timeout) t1) [
        | true ↦ ([], transition closed (signal_err user_timeout m1))
        | false ↦
            let (m2, t2) = now m1 in
            elim (ltb (entry.last + m.io.rto * 2 ^ entry.retx_count) t2) [
              | true ↦ elim (leb max_retx_count (u8 (entry.retx_count + 1))) [
                | true ↦
                    let told = record m2 {
                      io = send_if entry.err_ch (some retransmission_limit) m2.io;
                    } in
                    let (is, m3) = entry_loop (suc i) entries told in (i ∷ is, m3)
                | false ↦ entry_loop (suc i) entries (retransmit entry m2)
              ]
              | false ↦ entry_loop (suc i) entries m2
            ]
      ]

  -- One control block, when it is not in TIME-WAIT for too long. In the code `removeRetx` panics where
  -- a user timeout empties the queue behind an entry that was given up; the queue stays empty here. No
  -- control block comes to it: an entry is given up at a count that is never reached.
  unfoldable pub tick_queue : Machine W → Machine W
  unfolding entry_loop
  tick_queue m =
      let acked = queue_ack m in
      let (is, n) = entry_loop 0 acked.pcb.retx_queue acked in
      record n { pcb = record n.pcb { retx_queue = remove_retx n.pcb.retx_queue is } }

  -- `pcb.state == PCBStateTimeWait && pcb.lastTxTime.Add(MSL).Before(time.Now())`: the clock is read
  -- in TIME-WAIT only.
  unfoldable pub tick_pcb : Machine W → Machine W
  unfolding tick_queue
  tick_pcb m = elim (is_time_wait m.pcb.state) [
    | false ↦ tick_queue m
    | true ↦
        let (n, t) = now m in
        elim (ltb (m.pcb.last_tx_time + msl) t) [
          | true ↦ transition closed (signal_err user_timeout n)
          | false ↦ tick_queue n
        ]
  ]

  -- One round of the timer over the control blocks.
  unfoldable pub tick : List Pcb → Io W → List Pcb × Io W
  unfolding tick_pcb
  tick [] io = ([], io)
  tick (p ∷ ps) io =
      let m = tick_pcb (record { pcb = p; io = io }) in
      let (qs, io') = tick ps m.io in (m.pcb ∷ qs, io')
