-- ===== src/Tcp/Invariant.antt =====
-- What holds of a control block of pkg/tcp between two calls: its numbers are in range, and the entries of
-- the retransmission queue are as the code queued them.
pub mod Arrival
pub mod Calls
use go_network.Base.{
  ℕ, ◌+◌, ◌≡◌, ◌≢◌, refl, arith, if◌then◌else◌, List, [], ◌∷◌, ◌++◌, Bool, true, false, not, Option,
  none, some, All, keep, ltb, IsU16, IsU32,
}
use go_network.Errors.{Error}
use go_network.Tcp.ControlFlag
use go_network.Tcp.Pcb.{
  RetxEntry, Pcb, Machine, Io, Env, Trigger, trigger_no, trigger_open, trigger_close,
  trigger_receive, trigger_send, Chan, PcbState,
}
use go_network.Tcp.Queue.{
  new_entry, queue_add, queue_ack, queue_flush, signal_queue, signal_receive, deliver_data,
  signal_cmd, signal_err,
}
use go_network.Tcp.Queue.Remove.{is_acked, queue_ack_lem, signal_queue_lem}
use go_network.Tcp.Output.{tx_handler, tx_helper_tcp}
use go_network.Tcp.Frames.{
  Same, SameState, tx_helper_tcp-Same, queue_ack-Same, signal_cmd-SameState,
}

-- An entry of an OPEN or a CLOSE has a channel to answer on.
abbrev pub HasAnswer : Trigger → Option Chan → Type 0
HasAnswer trigger_open none = ⊥
HasAnswer trigger_close none = ⊥
HasAnswer _ _ = Unit

-- Entries are queued by `queueAdd`, and nothing ever counts a retransmission.
pub record IsQueued (e : RetxEntry) : Type 0 where
  pub count : e.retx_count ≡ 0
  pub answer : HasAnswer e.trigger_type e.err_ch
  pub seq : IsU32 e.seq

pub record IsSound (p : Pcb) : Type 0 where
  pub una : IsU32 p.snd.una
  pub snd_nxt : IsU32 p.snd.nxt
  pub snd_wnd : IsU16 p.snd.wnd
  pub wl1 : IsU32 p.snd.wl1
  pub wl2 : IsU32 p.snd.wl2
  pub iss : IsU32 p.iss
  pub rcv_nxt : IsU32 p.rcv.nxt
  pub rcv_wnd : IsU16 p.rcv.wnd
  pub irs : IsU32 p.irs
  pub snd_up : IsU16 p.snd.up
  pub rcv_up : IsU16 p.rcv.up
  pub mss : IsU16 p.mss
  pub rx_len : IsU16 p.rx_len
  pub queue : All IsQueued p.retx_queue

All-append : {A : Type 0} (P : A → Type 0) (xs ys : List A) → All P xs → All P ys → All P (xs ++ ys)
All-append P [] ys h k = k
All-append P (x ∷ xs) ys h k = (h.0, All-append P xs ys h.1 k)

All-keep : {A : Type 0} (P : A → Type 0) (p : A → Bool) (xs : List A) → All P xs → All P (keep p xs)
All-keep P p [] h = tt
All-keep P p (x ∷ xs) h = ground (arith, All-keep P p xs h.1)

Same-IsSound : {p q : Pcb} → Same p q → All IsQueued q.retx_queue → IsSound p → IsSound q
Same-IsSound e k s = ground arith

module _ {W : Type 0} ⦃env : Env W⦄ where
  queue_add-queue :
      (seq flag : ℕ) (bytes : List ℕ) (t : Trigger) (ch : Option Chan) (m : Machine W)
      → All IsQueued m.pcb.retx_queue
      → HasAnswer t ch
      → IsU32 seq
      → All IsQueued (queue_add seq flag bytes t ch m).pcb.retx_queue
  unfolding queue_add
  queue_add-queue seq flag bytes t ch m q h k =
      All-append IsQueued m.pcb.retx_queue _ q (record { count = refl; answer = h; seq = k }, tt)

  tx_helper_tcp-queue :
      (flag : ℕ) (bytes : List ℕ) (t : Trigger) (ch : Option Chan) (m : Machine W)
      → IsSound m.pcb
      → HasAnswer t ch
      → All IsQueued (tx_helper_tcp flag bytes t ch m).0.pcb.retx_queue
  unfolding tx_helper_tcp
  tx_helper_tcp-queue flag bytes t ch m s h =
      let p = m.pcb in
      let seq = if ControlFlag.is_set flag ControlFlag.syn then p.iss else p.snd.nxt in
      let io = (tx_handler p.local p.foreign bytes seq p.rcv.nxt flag p.rcv.wnd p.rcv.up m.io).0 in
      ground (arith, queue_add-queue seq flag bytes t ch (record m { io = io }))

  pub tx_helper_tcp-IsSound :
      (flag : ℕ) (bytes : List ℕ) (t : Trigger) (ch : Option Chan) (m : Machine W)
      → HasAnswer t ch
      → IsSound m.pcb
      → IsSound (tx_helper_tcp flag bytes t ch m).0.pcb
  tx_helper_tcp-IsSound flag bytes t ch m h s =
      Same-IsSound (tx_helper_tcp-Same flag bytes t ch m)
        (tx_helper_tcp-queue flag bytes t ch m s h) s

  pub queue_ack-IsSound : (m : Machine W) → IsSound m.pcb → IsSound (queue_ack m).pcb
  queue_ack-IsSound m s =
      Same-IsSound (queue_ack-Same m)
        (rw (queue_ack_lem m).0 (All-keep IsQueued _ m.pcb.retx_queue s.queue)) s

module _ {W : Type 0} where
  signal_queue-Same : (t : Trigger) (m : Machine W) → Same m.pcb (signal_queue t m).pcb
  unfolding signal_queue
  signal_queue-Same t m = ground arith

  signal_queue-IsSound :
      (t : Trigger) (m : Machine W) → IsSound m.pcb → IsSound (signal_queue t m).pcb
  signal_queue-IsSound t m s =
      Same-IsSound (signal_queue-Same t m)
        (rw (signal_queue_lem t m) (All-keep IsQueued _ m.pcb.retx_queue s.queue)) s

  deliver_data-IsSound : (m : Machine W) → IsSound m.pcb → IsSound (deliver_data m).pcb
  unfolding deliver_data
  deliver_data-IsSound m s = ground arith

  pub signal_cmd-IsSound :
      (t : Trigger) (m : Machine W) → IsSound m.pcb → IsSound (signal_cmd t m).pcb
  unfolding signal_cmd signal_receive
  signal_cmd-IsSound trigger_open m s = signal_queue-IsSound trigger_open m s
  signal_cmd-IsSound trigger_close m s = signal_queue-IsSound trigger_close m s
  signal_cmd-IsSound trigger_receive m s = ground (arith, deliver_data-IsSound m)
  signal_cmd-IsSound trigger_no m s = s
  signal_cmd-IsSound trigger_send m s = s

  pub signal_err-IsSound :
      (e : Error) (m : Machine W) → IsSound m.pcb → IsSound (signal_err e m).pcb
  unfolding signal_err queue_flush
  signal_err-IsSound e m s = ground arith
