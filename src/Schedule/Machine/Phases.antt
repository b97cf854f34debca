-- ===== src/Schedule/Machine/Phases.antt =====
-- The calls that the scheduler makes on the operation that it runs: which, in what order and when.
-- The operation here records the calls made on it; when it is done is a parameter.
use data_recorder.Base.{
  ◌≡◌, ◌≢◌, ◌⊎◌, inl, inr, sym, subst, Bool, true, false, none, some, List, [], ◌∷◌, ◌++◌, ◌==◌,
  arith, Bool-cases,
}
use data_recorder.Time.{TimeStamp, not_after, compare_timestamps, forever, add_time}
use data_recorder.Schedule.Operation.{Operation, Behaviour}
use data_recorder.Schedule.Machine.{
  Schedule, busy_step, window_start_step, execution_start_step, execution_stop_step,
  window_stop_step, finish_or_wait,
}

pub data Call : Type 0 where
  window_start execution_start execution_stop window_stop : Call

-- The operation that records its calls.
abbrev pub recording : (List Call → Bool) → Behaviour (List Call)
recording done = record {
  do_cancel = λ calls. (calls, true);
  do_window_start = λ calls. calls ++ window_start ∷ [];
  do_execution_start = λ calls. calls ++ execution_start ∷ [];
  do_execution_stop = λ calls. calls ++ execution_stop ∷ [];
  do_window_stop = λ calls. calls ++ window_stop ∷ [];
  is_done = done;
}

not_after_trans :
    (a b c : TimeStamp) → not_after a b ≡ true → not_after b c ≡ true → not_after a c ≡ true
unfolding not_after compare_timestamps
not_after_trans a b c h k = ground arith

-- The start of the padded slot, the two ends of the slot itself, and the end of the padded slot.
abbrev pub due : {B : Type 0} → Operation B → Call → TimeStamp
due op window_start = op.ts_padded.start
due op execution_start = op.ts.start
due op execution_stop = add_time op.ts.start op.ts.duration
due op window_stop = add_time op.ts_padded.start op.ts_padded.duration

-- The calls made when the four flags are as given; the last argument says whether the operation
-- lasts forever.
abbrev pub calls_of : Bool → Bool → Bool → Bool → Bool → List Call
calls_of false _ _ _ _ = []
calls_of true false _ _ _ = window_start ∷ []
calls_of true true _ _ true = window_start ∷ execution_start ∷ []
calls_of true true false _ false = window_start ∷ execution_start ∷ []
calls_of true true true false false = window_start ∷ execution_start ∷ execution_stop ∷ []
calls_of true true true true false =
    window_start ∷ execution_start ∷ execution_stop ∷ window_stop ∷ []

-- The state agrees with the calls made on the running operation, and each was made when it was due.
pub record Punctual (s : Schedule (List Call)) (op : Operation (List Call)) (now : TimeStamp)
    : Type 0 where
  pub running : s.current_operation ≡ some op
  pub not_cancelled : s.current_is_cancelled ≡ false
  pub second_after_first : s.notified_execution_start ≡ true → s.notified_window_start ≡ true
  pub third_after_second : s.notified_execution_stop ≡ true → s.notified_execution_start ≡ true
  pub fourth_after_third : s.notified_window_stop ≡ true → s.notified_execution_stop ≡ true
  pub no_stop_forever :
      op.ts.duration ≡ forever → s.notified_execution_start ≡ true → s.notified_window_stop ≡ true
  pub calls :
      op.body
      ≡ calls_of s.notified_window_start s.notified_execution_start s.notified_execution_stop
          s.notified_window_stop
          (op.ts.duration == forever)
  pub next_is_second :
      s.notified_window_start ≡ true
      → s.notified_execution_start ≡ false
      → s.next_event ≡ due op execution_start
  pub next_is_third :
      s.notified_execution_start ≡ true
      → s.notified_execution_stop ≡ false
      → s.next_event ≡ due op execution_stop
  pub next_is_fourth :
      s.notified_execution_stop ≡ true
      → s.notified_window_stop ≡ false
      → s.next_event ≡ due op window_stop
  pub first_due : s.notified_window_start ≡ true → not_after (due op window_start) now ≡ true
  pub second_due : s.notified_execution_start ≡ true → not_after (due op execution_start) now ≡ true
  pub third_due :
      op.ts.duration ≢ forever
      → s.notified_execution_stop ≡ true
      → not_after (due op execution_stop) now ≡ true
  pub fourth_due :
      op.ts.duration ≢ forever
      → s.notified_window_stop ≡ true
      → not_after (due op window_stop) now ≡ true

pub later :
    {s : Schedule (List Call)} {op : Operation (List Call)} {now : TimeStamp} (now' : TimeStamp)
    → not_after now now' ≡ true
    → Punctual s op now
    → Punctual s op now'
later {now = now} now' h p = record {
  running = p.running;
  not_cancelled = p.not_cancelled;
  second_after_first = p.second_after_first;
  third_after_second = p.third_after_second;
  fourth_after_third = p.fourth_after_third;
  no_stop_forever = p.no_stop_forever;
  calls = p.calls;
  next_is_second = p.next_is_second;
  next_is_third = p.next_is_third;
  next_is_fourth = p.next_is_fourth;
  first_due = λ t. not_after_trans _ now now' (p.first_due t) h;
  second_due = λ t. not_after_trans _ now now' (p.second_due t) h;
  third_due = λ f t. not_after_trans _ now now' (p.third_due f t) h;
  fourth_due = λ f t. not_after_trans _ now now' (p.fourth_due f t) h;
}

-- The running operation, with the calls made on it.
abbrev pub with_calls : Operation (List Call) → List Call → Operation (List Call)
with_calls op calls = record op { body = calls }

module _ (done : List Call → Bool) {s : Schedule (List Call)} {op : Operation (List Call)}
    {now : TimeStamp} (p : Punctual s op now) where
  window_start-Punctual :
      s.notified_window_start ≡ false
      → let s' = (window_start_step (recording done) s op now).0 in
        Punctual s' op now ⊎ Punctual s' (with_calls op (op.body ++ window_start ∷ [])) now
  unfolding window_start_step
  window_start-Punctual h = elim (Bool-cases (not_after op.ts_padded.start now)) [
    | inl e ↦ inr (rw e (ground (arith, p, h, e)))
    | inr e ↦ inl (rw e (ground (arith, p, h, e)))
  ]

  execution_start-Punctual :
      s.notified_window_start ≡ true
      → s.notified_execution_start ≡ false
      → let s' = (execution_start_step (recording done) s op now).0 in
        Punctual s' op now ⊎ Punctual s' (with_calls op (op.body ++ execution_start ∷ [])) now
  unfolding execution_start_step
  execution_start-Punctual h h' = elim (Bool-cases (not_after s.next_event now)) [
    | inl e ↦ elim (Bool-cases (op.ts.duration == forever)) [
      | inl f ↦ inr (rw (e, f) (ground (arith, p, h, h', e, f)))
      | inr f ↦ inr (rw (e, f) (ground (arith, p, h, h', e, f)))
    ]
    | inr e ↦ inl (rw e (ground (arith, p, h, h', e)))
  ]

  execution_stop-Punctual :
      s.notified_execution_start ≡ true
      → s.notified_execution_stop ≡ false
      → let s' = (execution_stop_step (recording done) s op now).0 in
        Punctual s' op now ⊎ Punctual s' (with_calls op (op.body ++ execution_stop ∷ [])) now
  unfolding execution_stop_step
  execution_stop-Punctual h h' = elim (Bool-cases (not_after s.next_event now)) [
    | inl e ↦ inr (rw e (ground (arith, p, h, h', e)))
    | inr e ↦ inl (rw e (ground (arith, p, h, h', e)))
  ]

  window_stop-Punctual :
      s.notified_execution_stop ≡ true
      → s.notified_window_stop ≡ false
      → let s' = (window_stop_step (recording done) s op now).0 in
        Punctual s' op now ⊎ Punctual s' (with_calls op (op.body ++ window_stop ∷ [])) now
  unfolding window_stop_step
  window_stop-Punctual h h' = elim (Bool-cases (not_after s.next_event now)) [
    | inl e ↦ inr (rw e (ground (arith, p, h, h', e)))
    | inr e ↦ inl (rw e (ground (arith, p, h, h', e)))
  ]

  finish-Punctual :
      let s' = (finish_or_wait s (done op.body)).0 in
      (s'.current_operation ≡ none) ⊎ Punctual s' op now
  unfolding finish_or_wait
  finish-Punctual = elim (Bool-cases (done op.body)) [ inl e ↦ inl (rw e) | inr e ↦ inr (rw e p) ]

  -- What a call of `doBusy` may leave: no operation, or one that runs on with some calls made.
  abbrev pub Leaves : Schedule (List Call) → Type 0
  Leaves s' =
      (s'.current_operation ≡ none) ⊎ ((calls : List Call) × Punctual s' (with_calls op calls) now)

  runs_on :
      (s' : Schedule (List Call)) (calls : List Call)
      → Punctual s' op now ⊎ Punctual s' (with_calls op calls) now
      → Leaves s'
  runs_on s' calls (inl q) = inr (op.body, q)
  runs_on s' calls (inr q) = inr (calls, q)

  finishes :
      (s' : Schedule (List Call)) → (s'.current_operation ≡ none) ⊎ Punctual s' op now → Leaves s'
  finishes s' (inl q) = inl q
  finishes s' (inr q) = inr (op.body, q)

  pub busy_step-Punctual : Leaves (busy_step (recording done) s op now).0
  unfolding busy_step
  busy_step-Punctual = elim (Bool-cases s.notified_window_start) [
    | inr a ↦
        let e : busy_step (recording done) s op now ≡ window_start_step (recording done) s op now =
          ground (arith, p.not_cancelled, a) in
        subst (λ r. Leaves r.0) (sym e) (runs_on _ _ (window_start-Punctual a))
    | inl a ↦ elim (Bool-cases s.notified_execution_start) [
      | inr b ↦
          let e : busy_step (recording done) s op now
              ≡ execution_start_step (recording done) s op now =
            ground (arith, p.not_cancelled, a, b) in
          subst (λ r. Leaves r.0) (sym e) (runs_on _ _ (execution_start-Punctual a b))
      | inl b ↦ elim (Bool-cases s.notified_execution_stop) [
        | inr c ↦
            let e : busy_step (recording done) s op now
                ≡ execution_stop_step (recording done) s op now =
              ground (arith, p.not_cancelled, a, b, c) in
            subst (λ r. Leaves r.0) (sym e) (runs_on _ _ (execution_stop-Punctual b c))
        | inl c ↦ elim (Bool-cases s.notified_window_stop) [
          | inr d ↦
              let e : busy_step (recording done) s op now
                  ≡ window_stop_step (recording done) s op now =
                ground (arith, p.not_cancelled, a, b, c, d) in
              subst (λ r. Leaves r.0) (sym e) (runs_on _ _ (window_stop-Punctual c d))
          | inl d ↦
              let e : busy_step (recording done) s op now ≡ finish_or_wait s (done op.body) =
                ground (arith, p.not_cancelled, a, b, c, d) in
              subst (λ r. Leaves r.0) (sym e) (finishes _ finish-Punctual)
        ]
      ]
    ]
  ]
