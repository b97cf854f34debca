-- ===== src/Schedule/Machine/Progress.antt =====
-- The scheduler gets through an operation whose calls are due.
use data_recorder.Base.{
  ℕ, ◌≡◌, ◌≢◌, refl, ap, ◌∙◌, true, false, none, some, List, [], ◌∷◌, ◌++◌, arith, returns, Bool,
}
use data_recorder.Time.{TimeStamp, not_after, forever}
use data_recorder.Schedule.Operation.{Operation, Behaviour}
use data_recorder.Schedule.Queue.{front, pop_front, is_empty}
use data_recorder.Schedule.Machine.{
  Schedule, get_state, do_wait, start_next, busy_step, do_busy, cycle, window_start_step,
  execution_start_step, execution_stop_step, window_stop_step,
}
use data_recorder.Schedule.Machine.Phases.{
  Call, window_start, execution_start, execution_stop, window_stop, recording, due, with_calls,
}
use data_recorder.Schedule.Machine.Runs.{run}

-- Every call of the operation is due.
abbrev pub AllDue : Operation (List Call) → TimeStamp → Type 0
AllDue op now = (call : Call) → not_after (due op call) now ≡ true

-- The state while the operation runs.
abbrev running :
    Schedule (List Call)
    → Operation (List Call)
    → Bool
    → Bool
    → Bool
    → Bool
    → TimeStamp
    → Schedule (List Call)
running s op a b c d next = record s {
  current_operation = some op;
  notified_window_start = a;
  notified_execution_start = b;
  notified_execution_stop = c;
  notified_window_stop = d;
  current_is_cancelled = false;
  next_event = next;
}

module _ (done : List Call → Bool) (s : Schedule (List Call)) (op : Operation (List Call))
    (now : TimeStamp) (all_due : AllDue op now) where
  busy_cycle :
      (a b c d : Bool) (next : TimeStamp)
      → cycle (recording done) (running s op a b c d next) now
        ≡ returns (busy_step (recording done) (running s op a b c d next) op now)
  unfolding cycle get_state do_busy
  busy_cycle a b c d next = refl

  first_cycle :
      (rest : List (Operation (List Call)))
      → s.current_operation ≡ none
      → s.ops_queue ≡ op ∷ rest
      → cycle (recording done) s now
        ≡ returns
            (running (record s { ops_queue = rest }) op false false false false s.next_event, 0)
  unfolding cycle get_state do_wait start_next front pop_front is_empty
  first_cycle rest idle e = ground (arith, idle, e, all_due window_start)

  second_cycle :
      (next : TimeStamp)
      → busy_step (recording done) (running s op false false false false next) op now ≡ (
        running s (with_calls op (op.body ++ window_start ∷ [])) true false false false op.ts.start,
        0,
      )
  unfolding busy_step window_start_step
  second_cycle next = ground (arith, all_due window_start)

  third_cycle :
      op.ts.duration ≢ forever
      → busy_step (recording done) (running s op true false false false op.ts.start) op now ≡ (
        running s
            (with_calls op (op.body ++ execution_start ∷ []))
            true
            true
            false
            false
            (due op execution_stop),
        0,
      )
  unfolding busy_step execution_start_step
  third_cycle ends = ground (arith, all_due execution_start, ends)

  fourth_cycle :
      busy_step (recording done) (running s op true true false false (due op execution_stop)) op now
      ≡ (
        running s
            (with_calls op (op.body ++ execution_stop ∷ []))
            true
            true
            true
            false
            (due op window_stop),
        0,
      )
  unfolding busy_step execution_stop_step
  fourth_cycle = ground (arith, all_due execution_stop)

  fifth_cycle :
      busy_step (recording done) (running s op true true true false (due op window_stop)) op now ≡ (
        running s
            (with_calls op (op.body ++ window_stop ∷ []))
            true
            true
            true
            true
            (due op window_stop),
        0,
      )
  unfolding busy_step window_stop_step
  fifth_cycle = ground (arith, all_due window_stop)

run_step :
    {B : Type 0} (behaviour : Behaviour B) (s : Schedule B) (now : TimeStamp)
    (times : List TimeStamp) (next : Schedule B × ℕ)
    → cycle behaviour s now ≡ returns next
    → run behaviour s (now ∷ times) ≡ run behaviour next.0 times
unfolding run
run_step behaviour s now times next e = rw e

-- From a scheduler with no current operation, whose next operation was not called yet and has an end,
-- five turns of the loop of `run`, at readings of the clock when all its calls are due, make it the
-- current operation and make its four calls in their order.
pub run_makes_calls :
    (done : List Call → Bool) (s : Schedule (List Call)) (op : Operation (List Call))
    (rest : List (Operation (List Call))) (t1 t2 t3 t4 t5 : TimeStamp)
    → s.current_operation ≡ none
    → s.ops_queue ≡ op ∷ rest
    → op.body ≡ []
    → op.ts.duration ≢ forever
    → AllDue op t1
    → AllDue op t2
    → AllDue op t3
    → AllDue op t4
    → AllDue op t5
    → (s' : Schedule (List Call)) × (run (recording done) s (t1 ∷ t2 ∷ t3 ∷ t4 ∷ t5 ∷ [])
        ≡ returns s')
      × (s'.current_operation
          ≡ some
              (with_calls op (window_start ∷ execution_start ∷ execution_stop ∷ window_stop ∷ [])))
      × (s'.ops_queue ≡ rest)
unfolding run
run_makes_calls done s op rest t1 t2 t3 t4 t5 idle e fresh ends d1 d2 d3 d4 d5 =
    let b = recording done in
    let r = record s { ops_queue = rest } in
    let op1 = with_calls op (op.body ++ window_start ∷ []) in
    let op2 = with_calls op1 (op1.body ++ execution_start ∷ []) in
    let op3 = with_calls op2 (op2.body ++ execution_stop ∷ []) in
    let op4 = with_calls op3 (op3.body ++ window_stop ∷ []) in
    let stop = due op execution_stop in
    let close = due op window_stop in
    let path =
      run_step b s t1 (t2 ∷ t3 ∷ t4 ∷ t5 ∷ []) _ (first_cycle done s op t1 d1 rest idle e)
      ∙ run_step b _ t2 (t3 ∷ t4 ∷ t5 ∷ []) _ (
          busy_cycle done r op t2 d2 false false false false s.next_event
          ∙ ap returns (second_cycle done r op t2 d2 s.next_event))
      ∙ run_step b _ t3 (t4 ∷ t5 ∷ []) _ (
          busy_cycle done r op1 t3 d3 true false false false op.ts.start
          ∙ ap returns (third_cycle done r op1 t3 d3 ends))
      ∙ run_step b _ t4 (t5 ∷ []) _ (
          busy_cycle done r op2 t4 d4 true true false false stop
          ∙ ap returns (fourth_cycle done r op2 t4 d4))
      ∙ run_step b _ t5 [] _ (
          busy_cycle done r op3 t5 d5 true true true false close
          ∙ ap returns (fifth_cycle done r op3 t5 d5)) in
    (running r op4 true true true true close, path, ground (arith, fresh), refl)
