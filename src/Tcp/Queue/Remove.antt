-- ===== src/Tcp/Queue/Remove.antt =====
-- removeRetx, queueAck, queueFlush and signalCmd of pkg/tcp/pcb.go against the plain description: which
-- entries stay in the queue, and who is told.
use go_network.Base.{
  ℕ, suc, ◌+◌, List, [], ◌∷◌, ◌≡◌, refl, sym, arith, Bool, true, false, not, map, keep, ltb, Option,
  none, some, length, ◌<◌, ◌≤◌, inl, inr, Bool-cases,
}
use mathlib.Core.Path.{subst}
use go_network.Errors.{Error}
use go_network.Tcp.Pcb.{same_trigger, Trigger, RetxEntry, Machine, Io, Env, Event, send_if, send_on}
use go_network.Tcp.Queue.{
  kept_between, remove_retx, ack_entry, ack_loop, queue_ack, flush_loop, signal_loop, signal_queue,
  queue_flush, signal_err,
}

-- The indexes, from i on, of the elements that pass the test.
unfoldable pub marks : {A : Type 0} → (A → Bool) → ℕ → List A → List ℕ
marks p i [] = []
marks p i (x ∷ xs) = elim (p x) [ true ↦ i ∷ marks p (suc i) xs | false ↦ marks p (suc i) xs ]

-- The indexes ascend from `low` on and stay below `high`, so that every slice bound in `removeRetx` is
-- in range.
abbrev pub Ascending : ℕ → ℕ → List ℕ → Type 0
Ascending low high [] = Unit
Ascending low high (i ∷ is) = (low ≤ i) × (i < high) × Ascending (suc i) high is

module _ {A : Type 0} where
  suc-length : (i : ℕ) (xs : List A) → i + suc (length xs) ≡ suc i + length xs
  suc-length i xs = omega arith

  marks-suc : (p : A → Bool) (i : ℕ) (xs : List A) → marks p (suc i) xs ≡ map suc (marks p i xs)
  unfolding marks
  marks-suc p i [] = refl
  marks-suc p i (x ∷ xs) = ground (arith, marks-suc p (suc i) xs)

  kept_between-suc :
      (x : A) (xs : List A) (last : ℕ) (is : List ℕ)
      → kept_between (x ∷ xs) (suc last) (map suc is) ≡ kept_between xs last is
  unfolding kept_between
  kept_between-suc x xs last [] = let e : suc last + 1 ≡ suc (last + 1) = omega arith in rw e
  kept_between-suc x xs last (i ∷ is) =
      let e : suc last + 1 ≡ suc (last + 1) = omega arith in rw (e, kept_between-suc x xs i is)

  remove_later :
      (x : A) (xs : List A) (is : List ℕ)
      → remove_retx (x ∷ xs) (map suc is) ≡ x ∷ remove_retx xs is
  unfolding remove_retx
  remove_later x xs [] = refl
  remove_later x xs (i ∷ is) = rw (kept_between-suc x xs i is)

  remove_first :
      (x : A) (xs : List A) (is : List ℕ)
      → remove_retx (x ∷ xs) (0 ∷ map suc is) ≡ remove_retx xs is
  unfolding remove_retx kept_between
  remove_first x xs [] = refl
  remove_first x xs (i ∷ is) = rw (kept_between-suc x xs i is)

  marks_hit :
      (p : A → Bool) (x : A) (xs : List A)
      → p x ≡ true
      → marks p 0 (x ∷ xs) ≡ 0 ∷ map suc (marks p 0 xs)
  unfolding marks
  marks_hit p x xs h = ground (arith, marks-suc p 0 xs)

  marks_miss :
      (p : A → Bool) (x : A) (xs : List A)
      → p x ≡ false
      → marks p 0 (x ∷ xs) ≡ map suc (marks p 0 xs)
  unfolding marks
  marks_miss p x xs h = ground (arith, marks-suc p 0 xs)

  -- Removing the marked indexes keeps exactly the elements that fail the test, in order.
  pub remove_retx-marks :
      (p : A → Bool) (xs : List A) → remove_retx xs (marks p 0 xs) ≡ keep (λ x. not (p x)) xs
  remove_retx-marks p [] = unfold remove_retx marks in refl
  remove_retx-marks p (x ∷ xs) = elim (Bool-cases (p x)) [
    | inl hit ↦ rw (marks_hit p x xs hit, remove_first, keep, hit) (remove_retx-marks p xs)
    | inr miss ↦ rw (marks_miss p x xs miss, remove_later, remove_retx-marks p xs, keep, miss)
  ]

  marks_at_hit :
      (p : A → Bool) (i : ℕ) (x : A) (xs : List A)
      → p x ≡ true
      → marks p i (x ∷ xs) ≡ i ∷ marks p (suc i) xs
  unfolding marks
  marks_at_hit p i x xs h = ground arith

  marks_at_miss :
      (p : A → Bool) (i : ℕ) (x : A) (xs : List A)
      → p x ≡ false
      → marks p i (x ∷ xs) ≡ marks p (suc i) xs
  unfolding marks
  marks_at_miss p i x xs h = ground arith

  -- The marked indexes, from i on, ascend and are indexes of the list.
  pub marks-Ascending :
      (p : A → Bool) (i j : ℕ) (xs : List A) → j ≤ i → Ascending j (i + length xs) (marks p i xs)
  unfolding marks
  marks-Ascending p i j [] h = tt
  marks-Ascending p i j (x ∷ xs) h = elim (Bool-cases (p x)) [
    | inl hit ↦
        subst (Ascending j (i + suc (length xs))) (sym (marks_at_hit p i x xs hit)) (
          h,
          omega arith,
          rw (suc-length i xs) (marks-Ascending p (suc i) (suc i) xs (omega arith)),
        )
    | inr miss ↦
        subst (Ascending j (i + suc (length xs))) (sym (marks_at_miss p i x xs miss))
          (rw (suc-length i xs) (marks-Ascending p (suc i) j xs (omega arith)))
  ]

abbrev pub is_acked : ℕ → RetxEntry → Bool
is_acked una entry = ltb entry.seq una

abbrev pub is_of : Trigger → RetxEntry → Bool
is_of t entry = same_trigger entry.trigger_type t

-- The sends on the channels of entries, the newest first, in front of a trace.
abbrev pub notices : Option Error → List RetxEntry → List Event → List Event
notices e [] trace = trace
notices e (x ∷ xs) trace =
    notices e xs (elim x.err_ch [ none ↦ trace | some ch ↦ Event.notify ch e ∷ trace ])

module _ {W : Type 0} ⦃env : Env W⦄ where
  ack_loop-marks :
      (una i : ℕ) (es : List RetxEntry) (io : Io W)
      → (ack_loop una i es io).0 ≡ marks (is_acked una) i es
  unfolding ack_loop marks
  ack_loop-marks una i [] io = refl
  ack_loop-marks una i (e ∷ es) io = ground (
    arith,
    ack_loop-marks una (suc i) es (elim (ltb e.seq una) [ true ↦ ack_entry e io | false ↦ io ]),
  )

  ack_entry-trace :
      (e : RetxEntry) (io : Io W) → (ack_entry e io).trace ≡ notices none (e ∷ []) io.trace
  unfolding ack_entry
  ack_entry-trace e io = ground arith

  ack_loop-trace :
      (una i : ℕ) (es : List RetxEntry) (io : Io W)
      → (ack_loop una i es io).1.trace ≡ notices none (keep (is_acked una) es) io.trace
  unfolding ack_loop
  ack_loop-trace una i [] io = refl
  ack_loop-trace una i (e ∷ es) io = ground (
    arith,
    ack_loop-trace una (suc i) es (ack_entry e io),
    ack_loop-trace una (suc i) es io,
    ack_entry-trace e io,
  )

  -- `queueAck` drops exactly the entries whose first sequence number is below SND.UNA, also those that are
  -- acknowledged in part only, keeps the others in order, and reports success once on the channel of each
  -- dropped entry that has one, in order.
  pub queue_ack_lem :
      (m : Machine W)
      → ((queue_ack m).pcb.retx_queue ≡ keep (λ e. not (is_acked m.pcb.snd.una e)) m.pcb.retx_queue)
        × ((queue_ack m).io.trace
            ≡ notices none (keep (is_acked m.pcb.snd.una) m.pcb.retx_queue) m.io.trace)
  unfolding queue_ack
  queue_ack_lem m = (
    rw (ack_loop-marks m.pcb.snd.una 0 m.pcb.retx_queue m.io)
        (remove_retx-marks (is_acked m.pcb.snd.una) m.pcb.retx_queue),
    ack_loop-trace m.pcb.snd.una 0 m.pcb.retx_queue m.io,
  )

module _ {W : Type 0} where
  flush_loop-trace :
      (e : Error) (es : List RetxEntry) (io : Io W)
      → (flush_loop e es io).trace ≡ notices (some e) es io.trace
  unfolding flush_loop
  flush_loop-trace e [] io = refl
  flush_loop-trace e (x ∷ xs) io =
      ground (arith, flush_loop-trace e xs (send_if x.err_ch (some e) io))

  -- `signalErr` empties the queue and the pending RECEIVE, and sends the error once on every channel
  -- that waited there.
  pub signal_err_trace :
      (e : Error) (m : Machine W)
      → (signal_err e m).io.trace
        ≡ (send_if m.pcb.rcv_cmd.err_ch
            (some e)
            (record m.io { trace = notices (some e) m.pcb.retx_queue m.io.trace })).trace
  unfolding signal_err queue_flush
  signal_err_trace e m = ground (arith, flush_loop-trace e m.pcb.retx_queue m.io)

  signal_loop-marks :
      (t : Trigger) (i : ℕ) (es : List RetxEntry) (io : Io W)
      → (signal_loop t i es io).0 ≡ marks (is_of t) i es
  unfolding signal_loop marks
  signal_loop-marks t i [] io = refl
  signal_loop-marks t i (e ∷ es) io = ground (
    arith,
    signal_loop-marks t (suc i) es (send_on e.err_ch none io),
    signal_loop-marks t (suc i) es io,
  )

  -- `signalCmd` for OPEN or CLOSE drops exactly the entries of that call.
  pub signal_queue_lem :
      (t : Trigger) (m : Machine W)
      → (signal_queue t m).pcb.retx_queue ≡ keep (λ e. not (is_of t e)) m.pcb.retx_queue
  unfolding signal_queue
  signal_queue_lem t m =
      rw (signal_loop-marks t 0 m.pcb.retx_queue m.io)
        (remove_retx-marks (is_of t) m.pcb.retx_queue)
