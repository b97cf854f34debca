-- ===== src/Tests/Scheduling.antt =====
-- The scheduler of DROS2/Actors/Schedule.cpp with the operations of `Queues`.
use data_recorder.Base.{
  arith, ◌+◌, ◌⊎◌, ◌↔◌, ◌≢◌, ℕ, ◌≡◌, ◌≤◌, ◌==◌, true, false, none, some, refl, List, [], ◌∷◌,
  length, All, returns, fatal, take,
}
use data_recorder.Time.{
  get_time_stamp_delta, add_time, TimeStamp, forever, not_after, compare_timestamps,
}
use data_recorder.Schedule.Operation.{Operation, Behaviour}
use data_recorder.Schedule.Queue.Order.{Apart, IsOrdered, Clear}
use data_recorder.Schedule.Queue.{find_by_ref}
use mathlib.Core.List.{Memᴰ}
use data_recorder.Schedule.Machine.{Schedule, waiting, get_state, do_wait, reasonable_wait_time}
use data_recorder.Schedule.Machine.Waits.{reasonable_wait_time_lem}
use data_recorder.Schedule.Machine.Phases.{
  Call, window_start, execution_start, execution_stop, window_stop, recording, with_calls,
}
use data_recorder.Schedule.Machine.Progress.{AllDue, run_makes_calls}
use data_recorder.Schedule.Machine.Runs.{run, IsClock, IsDue, last_reading, all_calls, run_in_time}
use data_recorder.Schedule.Requests.{
  null_pointer, op_idle, operation, no_comment, schedule_operation, cancel_operation,
}
use data_recorder.Schedule.Requests.Undo.{schedule-cancel}
use data_recorder.Schedule.Requests.Interleaving.{
  Reach, schedules, cancels, here, after, Reach-IsOrdered, cancel-do_wait,
}
use data_recorder.Tests.Queues.{hour_from, early, noon, late, two-IsOrdered, noon-HasSlot}

abbrev at_time : ℕ → TimeStamp
at_time mpm = record { mjd = 60000; mpm = mpm }

-- A scheduler with no current operation.
abbrev resting : {B : Type 0} → List (Operation B) → Schedule B
resting ops = record {
  ops_queue = ops;
  current_operation = none;
  notified_window_start = false;
  notified_execution_start = false;
  notified_execution_stop = false;
  notified_window_stop = false;
  current_is_cancelled = false;
  next_event = at_time 0;
}

abbrev fresh : Operation (List Call)
fresh = record { reference = 1; ts = hour_from 5000; ts_padded = hour_from 0; body = [] }

-- Four readings of the clock: two for each of the first calls.
abbrev readings : List TimeStamp
readings = at_time 1000 ∷ at_time 2000 ∷ at_time 6000 ∷ at_time 7000 ∷ []

readings-IsClock : IsClock (at_time 0) readings
unfolding not_after compare_timestamps
readings-IsClock = (refl, (refl, (refl, (refl, tt))))

run_in_time_example :
    (s' : Schedule (List Call)) × (run (recording (λ _. false)) (resting (fresh ∷ [])) readings
      ≡ returns s')
    × ((op : Operation (List Call))
        → s'.current_operation ≡ some op
        → (op.body ≡ take (length op.body) (all_calls (op.ts.duration == forever)))
          × All (IsDue op (last_reading (at_time 0) readings)) op.body)
run_in_time_example =
    run_in_time (λ _. false) (resting (fresh ∷ [])) (at_time 0) readings refl (refl, tt)
      readings-IsClock

abbrev two : Schedule ℕ
two = resting (early ∷ late ∷ [])

-- Operations that always agree to be cancelled.
abbrev agreeable : Behaviour ℕ
agreeable = record {
  do_cancel = λ n. (n, true);
  do_window_start = λ n. n;
  do_execution_start = λ n. n;
  do_execution_stop = λ n. n;
  do_window_stop = λ n. n;
  is_done = λ n. true;
}

fresh_ref : find_by_ref noon.reference two.ops_queue ≡ none
unfolding find_by_ref
fresh_ref = refl

schedule-cancel_example :
    (schedule_operation two null_pointer ≡ (two, false, none))
    × (schedule_operation two op_idle ≡ (two, false, none))
    × ((¬ Clear noon two.ops_queue
          × (c : Operation ℕ) × (schedule_operation two (operation noon) ≡ (two, false, some c))
          × Memᴰ c two.ops_queue
          × ¬ Apart noon.ts_padded c.ts_padded)
        ⊎ (Clear noon two.ops_queue
            × (s' : Schedule ℕ) × (schedule_operation two (operation noon) ≡ (s', true, none))
            × (length s'.ops_queue ≡ 2 + 1)
            × (find_by_ref 2 s'.ops_queue ≡ some noon)
            × (cancel_operation agreeable s' 2 ≡ (two, true, no_comment))))
schedule-cancel_example =
    schedule-cancel agreeable two noon noon-HasSlot two-IsOrdered fresh_ref refl refl

abbrev scheduled : Schedule ℕ
scheduled = (schedule_operation two (operation noon)).0

abbrev cancelled : Schedule ℕ
cancelled = (cancel_operation agreeable scheduled 1).0

path : Reach agreeable two cancelled
path =
    after two scheduled cancelled
      (after two two scheduled (here two) (schedules two noon noon-HasSlot)) (cancels scheduled 1)

Reach-IsOrdered_example : IsOrdered cancelled.ops_queue
Reach-IsOrdered_example = Reach-IsOrdered agreeable path two-IsOrdered

cancel-do_wait_example :
    (get_state (resting (noon ∷ [])) ≡ waiting)
    × (do_wait (cancel_operation agreeable (resting (noon ∷ [])) 2).0 (at_time 0) ≡ fatal)
cancel-do_wait_example =
    cancel-do_wait agreeable (resting (noon ∷ [])) noon (at_time 0) refl refl refl

-- Five readings of the clock two hours later.
abbrev evening : TimeStamp
evening = at_time 7200000

evening-AllDue : AllDue fresh evening
unfolding not_after compare_timestamps add_time
evening-AllDue window_start = refl
evening-AllDue execution_start = refl
evening-AllDue execution_stop = refl
evening-AllDue window_stop = refl

run_makes_calls_example :
    (s' : Schedule (List Call)) × (run
        (recording (λ _. false))
        (resting (fresh ∷ []))
        (evening ∷ evening ∷ evening ∷ evening ∷ evening ∷ [])
      ≡ returns s')
    × (s'.current_operation
        ≡ some
            (with_calls fresh (window_start ∷ execution_start ∷ execution_stop ∷ window_stop ∷ [])))
    × (s'.ops_queue ≡ [])
run_makes_calls_example =
    run_makes_calls (λ _. false) (resting (fresh ∷ [])) fresh [] evening evening evening evening
      evening refl refl refl (λ h. absurd (ground (arith, h))) evening-AllDue evening-AllDue
      evening-AllDue evening-AllDue evening-AllDue

reasonable_wait_time_example :
    let delta = get_time_stamp_delta (at_time 0) evening in
    ((reasonable_wait_time evening (at_time 0) true ≡ 0) ↔ ((delta.mjd ≡ 0) × (delta.mpm ≤ 200000)))
    × (reasonable_wait_time evening (at_time 0) false ≢ 0)
    × (reasonable_wait_time evening (at_time 0) false ≤ 180000000)
reasonable_wait_time_example = reasonable_wait_time_lem evening (at_time 0)
