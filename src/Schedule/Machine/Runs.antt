-- ===== src/Schedule/Machine/Runs.antt =====
-- The scheduler's loop over any sequence of clock readings.
use data_recorder.Base.{
  ℕ, ◌≡◌, ◌⊎◌, inl, inr, refl, sym, subst, Bool, true, false, none, some, List, [], ◌∷◌, length,
  All, arith, Bool-cases, Exit, returns, ◌>>=◌, take, ◌==◌,
}
use data_recorder.Time.{TimeStamp, not_after, forever}
use data_recorder.Schedule.Operation.{Operation, Behaviour}
use data_recorder.Schedule.Queue.{front, pop_front, is_empty}
use data_recorder.Schedule.Machine.{
  Schedule, get_state, do_wait, start_next, busy_step, do_busy, cycle, window_start_step,
  execution_start_step, execution_stop_step, window_stop_step, finish_or_wait,
}
use data_recorder.Schedule.Machine.Phases.{
  Call, window_start, execution_start, execution_stop, window_stop, recording, due, calls_of,
  Punctual, later, busy_step-Punctual, with_calls,
}

-- The loop of `run` with the readings of the clock, one for each pass.
unfoldable pub run : {B : Type 0} → Behaviour B → Schedule B → List TimeStamp → Exit (Schedule B)
run behaviour s [] = returns s
run behaviour s (now ∷ times) = do next ← cycle behaviour s now; run behaviour next.0 times

-- The clock does not go back, and its last reading.
abbrev pub IsClock : TimeStamp → List TimeStamp → Type 0
IsClock t [] = Unit {0}
IsClock t (now ∷ times) = (not_after t now ≡ true) × IsClock now times

abbrev pub last_reading : TimeStamp → List TimeStamp → TimeStamp
last_reading t [] = t
last_reading t (now ∷ times) = last_reading now times

-- No call was made yet on any queued operation.
abbrev pub IsFresh : Operation (List Call) → Type 0
IsFresh op = op.body ≡ []

record Running (s : Schedule (List Call)) (now : TimeStamp) : Type 0 where
  queued : All IsFresh s.ops_queue
  current : (s.current_operation ≡ none) ⊎ ((op : Operation (List Call)) × Punctual s op now)

start_next-Running :
    (s : Schedule (List Call)) (now : TimeStamp) (op : Operation (List Call))
    (rest : List (Operation (List Call)))
    → s.ops_queue ≡ op ∷ rest
    → s.current_operation ≡ none
    → All IsFresh s.ops_queue
    → Running (start_next s now op).0 now
unfolding start_next pop_front
start_next-Running s now op rest e idle fresh =
    elim (Bool-cases (not_after op.ts_padded.start now)) [
      | inl d ↦
          let fresh' : All IsFresh (op ∷ rest) = rw e at fresh in
          rw (d, e) (record { queued = fresh'.1; current = inr (op, ground (arith, fresh'.0)) })
      | inr d ↦ rw d (record { queued = fresh; current = inl idle })
    ]

pub busy_step-queue :
    {B : Type 0} (behaviour : Behaviour B) (s : Schedule B) (op : Operation B) (now : TimeStamp)
    → (busy_step behaviour s op now).0.ops_queue ≡ s.ops_queue
unfolding busy_step window_start_step execution_start_step execution_stop_step window_stop_step
    finish_or_wait
busy_step-queue behaviour s op now = ground arith

busy_step-Running :
    (done : List Call → Bool) (s : Schedule (List Call)) (op : Operation (List Call))
    (now now' : TimeStamp)
    → Punctual s op now
    → not_after now now' ≡ true
    → All IsFresh s.ops_queue
    → Running (busy_step (recording done) s op now').0 now'
busy_step-Running done s op now now' p h fresh = record {
  queued = rw (busy_step-queue (recording done) s op now') fresh;
  current = elim (busy_step-Punctual done (later now' h p)) [
    | inl e ↦ inl e
    | inr (calls, q) ↦ inr (with_calls op calls, q)
  ];
}

List-cases : {A : Type 0} (xs : List A) → (xs ≡ []) ⊎ ((x : A) × (rest : List A) × (xs ≡ x ∷ rest))
List-cases [] = inl refl
List-cases (x ∷ xs) = inr (x, xs, refl)

-- Every pass of the loop goes through, and keeps the running operation punctual.
cycle-Running :
    (done : List Call → Bool) (s : Schedule (List Call)) (now now' : TimeStamp)
    → Running s now
    → not_after now now' ≡ true
    → (next : Schedule (List Call) × ℕ) × (cycle (recording done) s now' ≡ returns next)
      × Running next.0 now'
unfolding cycle get_state do_wait do_busy front is_empty
cycle-Running done s now now' v h = elim v.current [
  | inr (op, p) ↦ (
    busy_step (recording done) s op now',
    ground (arith, p.running),
    busy_step-Running done s op now now' p h v.queued,
  )
  | inl idle ↦ elim (List-cases s.ops_queue) [
    | inl e ↦
        ((s, 100000), ground (arith, idle, e), record { queued = v.queued; current = inl idle })
    | inr (op, rest, e) ↦ (
      start_next s now' op,
      ground (arith, idle, e),
      start_next-Running s now' op rest e idle v.queued,
    )
  ]
]

run-Running :
    (done : List Call → Bool) (s : Schedule (List Call)) (now : TimeStamp) (times : List TimeStamp)
    → Running s now
    → IsClock now times
    → (s' : Schedule (List Call)) × (run (recording done) s times ≡ returns s')
      × Running s' (last_reading now times)
unfolding run
run-Running done s now [] v c = (s, refl, v)
run-Running done s now (now' ∷ times) v c =
    let (next, e, v') = cycle-Running done s now now' v c.0 in
    let (s', e', w) = run-Running done next.0 now' times v' c.1 in (s', rw e e', w)

-- The calls of an operation that has an end, and of one that lasts forever.
abbrev pub all_calls : Bool → List Call
all_calls true = window_start ∷ execution_start ∷ []
all_calls false = window_start ∷ execution_start ∷ execution_stop ∷ window_stop ∷ []

abbrev pub IsDue : Operation (List Call) → TimeStamp → Call → Type 0
IsDue op now call = not_after (due op call) now ≡ true

calls_of-all_calls :
    (a b c d f : Bool) (P : Call → Type 0)
    → (a ≡ true → P window_start)
    → (b ≡ true → P execution_start)
    → (f ≡ false → c ≡ true → P execution_stop)
    → (f ≡ false → d ≡ true → P window_stop)
    → let calls = calls_of a b c d f in (calls ≡ take (length calls) (all_calls f)) × All P calls
calls_of-all_calls false _ _ _ _ P w x y z = (refl, tt)
calls_of-all_calls true false _ _ true P w x y z = (refl, (w refl, tt))
calls_of-all_calls true false _ _ false P w x y z = (refl, (w refl, tt))
calls_of-all_calls true true _ _ true P w x y z = (refl, (w refl, (x refl, tt)))
calls_of-all_calls true true false _ false P w x y z = (refl, (w refl, (x refl, tt)))
calls_of-all_calls true true true false false P w x y z =
    (refl, (w refl, (x refl, (y refl refl, tt))))
calls_of-all_calls true true true true false P w x y z =
    (refl, (w refl, (x refl, (y refl refl, (z refl refl, tt)))))

Punctual-calls :
    {s : Schedule (List Call)} {op : Operation (List Call)} {now : TimeStamp}
    → Punctual s op now
    → (op.body ≡ take (length op.body) (all_calls (op.ts.duration == forever)))
      × All (IsDue op now) op.body
Punctual-calls {op = op} {now = now} p =
    let forever? = op.ts.duration == forever in
    subst (λ calls. (calls ≡ take (length calls) (all_calls forever?)) × All (IsDue op now) calls)
      (sym p.calls)
      (calls_of-all_calls _ _ _ _ forever? (IsDue op now) p.first_due p.second_due
        (λ f. p.third_due (ground (arith, f))) (λ f. p.fourth_due (ground (arith, f))))

current_calls :
    {s : Schedule (List Call)} {op : Operation (List Call)} {now : TimeStamp}
    → (s.current_operation ≡ none) ⊎ ((x : Operation (List Call)) × Punctual s x now)
    → s.current_operation ≡ some op
    → (op.body ≡ take (length op.body) (all_calls (op.ts.duration == forever)))
      × All (IsDue op now) op.body
current_calls (inl idle) h = absurd (cc)
current_calls {s} {op} {now} (inr (x, p)) h =
    let same : x ≡ op = ground (arith, p.running) in
    subst
      (λ (y : Operation (List Call)).
        (y.body ≡ take (length y.body) (all_calls (y.ts.duration == forever)))
        × All (IsDue y now) y.body)
      same (Punctual-calls p)

-- From a scheduler with no current operation, whose queued operations were not called yet, the
-- loop of `run` with no other thread goes through any readings of a clock that does not go back.
-- The operation that is then current has had a first part of the calls of its kind (window
-- start, execution start, execution stop, window stop; only the first two if it lasts forever),
-- each once and in this order, and each of them was due by the last reading.
pub run_in_time :
    (done : List Call → Bool) (s : Schedule (List Call)) (now : TimeStamp) (times : List TimeStamp)
    → s.current_operation ≡ none
    → All IsFresh s.ops_queue
    → IsClock now times
    → (s' : Schedule (List Call)) × (run (recording done) s times ≡ returns s')
      × ((op : Operation (List Call))
          → s'.current_operation ≡ some op
          → (op.body ≡ take (length op.body) (all_calls (op.ts.duration == forever)))
            × All (IsDue op (last_reading now times)) op.body)
run_in_time done s now times idle fresh c =
    let (s', e, v) =
      run-Running done s now times (record { queued = fresh; current = inl idle }) c in
    (s', e, λ op running. current_calls v.current running)
