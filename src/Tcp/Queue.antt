-- ===== src/Tcp/Queue.antt =====
-- The retransmission queue and the pending RECEIVE of pkg/tcp/pcb.go: queueAdd, removeRetx, queueAck,
-- queueFlush, signalCmd and signalErr.
pub mod Remove
pub mod Delivery
use go_network.Base.{
  ℕ, zero, suc, ◌+◌, ◌-◌, List, [], ◌∷◌, ◌++◌, true, false, Option, none, some, take, drop, ltb,
  ◌==◌, if◌then◌else◌, u16,
}
use go_network.Errors.{Error}
use go_network.Tcp.Pcb.{
  RetxEntry, Machine, Io, Env, Trigger, trigger_no, trigger_open, trigger_close, trigger_receive,
  trigger_send, Chan, same_trigger, buffer_size, no_rcv_cmd, emit, send_on, send_if, calculate_rto,
  deliver,
}

abbrev pub new_entry : ℕ → ℕ → List ℕ → Trigger → Option Chan → ℕ → ℕ → RetxEntry
new_entry seq flag bytes trigger err_ch first last = record {
  bytes = bytes;
  seq = seq;
  flag = flag;
  first = first;
  last = last;
  retx_count = 0;
  err_ch = err_ch;
  trigger_type = trigger;
}

-- `removeRetx`: between two indexes the entries are kept. A slice from `a` to `b` is `drop a (take b l)`.
unfoldable pub kept_between : {A : Type 0} → List A → ℕ → List ℕ → List A
kept_between entries last [] = drop (last + 1) entries
kept_between entries last (i ∷ is) = drop (last + 1) (take i entries) ++ kept_between entries i is

unfoldable pub remove_retx : {A : Type 0} → List A → List ℕ → List A
unfolding kept_between
remove_retx entries [] = entries
remove_retx entries (i ∷ is) = take i entries ++ kept_between entries i is

-- The first n bytes of the array.
unfoldable pub prefix : ℕ → (ℕ → ℕ) → List ℕ
prefix zero a = []
prefix (suc n) a = a 0 ∷ prefix n (λ i. a (suc i))

-- `copy(rxQueue[:], rxQueue[from:])`: the array moved down by `from`; its last bytes stay.
unfoldable pub move_down : ℕ → (ℕ → ℕ) → ℕ → ℕ
move_down from a i = if ltb (i + from) buffer_size then a (i + from) else a i

module _ {W : Type 0} ⦃env : Env W⦄ where
  -- The clock is read for `first` and again for `last`.
  unfoldable pub queue_add : ℕ → ℕ → List ℕ → Trigger → Option Chan → Machine W → Machine W
  queue_add seq flag bytes trigger err_ch m =
      let (w, first) = env.time_now m.io.world in
      let (w', last) = env.time_now w in
      let entry = new_entry seq flag bytes trigger err_ch first last in
      record m {
        pcb = record m.pcb { retx_queue = m.pcb.retx_queue ++ (entry ∷ []) };
        io = record m.io { world = w' };
      }

  -- What `queueAck` does for an acknowledged entry: the user is told, and the round trip is measured.
  unfoldable pub ack_entry : RetxEntry → Io W → Io W
  unfolding calculate_rto
  ack_entry entry io =
      let told = send_if entry.err_ch none io in
      let (w, now) = env.time_now told.world in
      calculate_rto (now - entry.last) (record told { world = w })

  -- The loop of `queueAck` from index i: the indexes to delete.
  unfoldable pub ack_loop : ℕ → ℕ → List RetxEntry → Io W → List ℕ × Io W
  unfolding ack_entry
  ack_loop una i [] io = ([], io)
  ack_loop una i (entry ∷ entries) io =
      let acked = ltb entry.seq una in
      let (is, io') =
        ack_loop una (suc i) entries (elim acked [ true ↦ ack_entry entry io | false ↦ io ]) in
      (elim acked [ true ↦ i ∷ is | false ↦ is ], io')

  unfoldable pub queue_ack : Machine W → Machine W
  unfolding ack_loop remove_retx
  queue_ack m =
      let (is, io) = ack_loop m.pcb.snd.una 0 m.pcb.retx_queue m.io in
      record m { pcb = record m.pcb { retx_queue = remove_retx m.pcb.retx_queue is }; io = io }

module _ {W : Type 0} where
  unfoldable pub flush_loop : Error → List RetxEntry → Io W → Io W
  flush_loop e [] io = io
  flush_loop e (entry ∷ entries) io = flush_loop e entries (send_if entry.err_ch (some e) io)

  unfoldable pub queue_flush : Error → Machine W → Machine W
  unfolding flush_loop
  queue_flush e m = record m {
    pcb = record m.pcb { retx_queue = [] };
    io = flush_loop e m.pcb.retx_queue m.io;
  }

  -- The loop of `signalCmd` for OPEN and CLOSE: there is no test for a nil channel, on which the code
  -- would wait for ever and this goes on. The entries of OPEN and CLOSE always have a channel.
  unfoldable pub signal_loop : Trigger → ℕ → List RetxEntry → Io W → List ℕ × Io W
  signal_loop t i [] io = ([], io)
  signal_loop t i (entry ∷ entries) io =
      let hit = same_trigger entry.trigger_type t in
      let (is, io') =
        signal_loop t (suc i) entries
          (elim hit [ true ↦ send_on entry.err_ch none io | false ↦ io ]) in
      (elim hit [ true ↦ i ∷ is | false ↦ is ], io')

  unfoldable pub signal_queue : Trigger → Machine W → Machine W
  unfolding signal_loop remove_retx
  signal_queue t m =
      let (is, io) = signal_loop t 0 m.pcb.retx_queue m.io in
      record m { pcb = record m.pcb { retx_queue = remove_retx m.pcb.retx_queue is }; io = io }

  -- The case `triggerReceive` when there is a command and there is data.
  unfoldable pub deliver_data : Machine W → Machine W
  deliver_data m =
      let p = m.pcb in
      let dlen = if ltb p.rcv_cmd.room p.rx_len then p.rcv_cmd.room else p.rx_len in
      let io = send_on p.rcv_cmd.err_ch none (emit (deliver (prefix dlen p.rx_queue)) m.io) in
      record m {
        pcb =
            (if dlen == p.rx_len
              then record p {
                rx_len = 0;
                rcv = record p.rcv { wnd = buffer_size };
                rcv_cmd = no_rcv_cmd;
              }
              else record p {
                rx_queue = move_down (p.rx_len - u16 dlen) p.rx_queue;
                rx_len = p.rx_len - u16 dlen;
                rcv = record p.rcv { wnd = u16 (p.rcv.wnd + u16 dlen) };
                rcv_cmd = no_rcv_cmd;
              });
        io = io;
      }

  unfoldable pub signal_receive : Machine W → Machine W
  unfolding deliver_data
  signal_receive m = elim m.pcb.rcv_cmd.err_ch [
    | none ↦ m
    | some _ ↦ if ltb 0 m.pcb.rx_len then deliver_data m else m
  ]

  unfoldable pub signal_cmd : Trigger → Machine W → Machine W
  unfolding signal_queue signal_receive
  signal_cmd trigger_open m = signal_queue trigger_open m
  signal_cmd trigger_close m = signal_queue trigger_close m
  signal_cmd trigger_receive m = signal_receive m
  signal_cmd trigger_no m = m
  signal_cmd trigger_send m = m

  unfoldable pub signal_err : Error → Machine W → Machine W
  unfolding queue_flush
  signal_err e m =
      let flushed = queue_flush e m in
      record flushed {
        pcb = record flushed.pcb { rcv_cmd = no_rcv_cmd };
        io = send_if flushed.pcb.rcv_cmd.err_ch (some e) flushed.io;
      }
