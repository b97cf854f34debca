-- ===== src/Schedule/Machine.antt =====
-- DROS2/Actors/Schedule.cpp: the scheduler's state and its operations. Each call holds the lock, so
-- it is one step. `Time::now()` is an argument, `usleep` the returned number of microseconds, logging
-- is left out. The idle operation `op_idle` is `none`. A null dereference is `fatal`.
pub mod Phases
pub mod Runs
pub mod Progress
pub mod Waits
use data_recorder.Base.{
  ℕ, zero, suc, ◌+◌, ◌-◌, ◌*◌, Bool, true, false, not, Option, none, some, List, [], ◌∷◌, ltb, ◌==◌,
  leb, if◌then◌else◌, length, Exit, returns, fatal,
}
use data_recorder.Time.{TimeStamp, TimeSlot, forever, add_time, not_after, get_time_stamp_delta}
use data_recorder.Schedule.Operation.{Operation, Behaviour}
use data_recorder.Schedule.Queue.{
  insert, find_conflict, find_by_index, find_by_ref, remove_by_ref, front, pop_front, is_empty,
  get_size,
}

-- `ScheduleState`
pub data ScheduleState : Type 0 where
  idle waiting busy : ScheduleState

-- The members of `Schedule`, and the static `nextEvent` of `doBusy`.
pub record Schedule (B : Type 0) : Type 0 where
  pub ops_queue : List (Operation B)
  pub current_operation : Option (Operation B)
  pub notified_window_start : Bool
  pub notified_execution_start : Bool
  pub notified_execution_stop : Bool
  pub notified_window_stop : Bool
  pub current_is_cancelled : Bool
  pub next_event : TimeStamp

abbrev pub max_wait : ℕ
max_wait = 200000

abbrev pub min_wait : ℕ
min_wait = 50000

unfoldable pub reasonable_wait_time : TimeStamp → TimeStamp → Bool → ℕ
reasonable_wait_time next_event now precise =
    let delta = get_time_stamp_delta now next_event in
    if not (delta.mjd == 0)
    then 5 * max_wait
    else if ltb max_wait delta.mpm
    then max_wait
    else if ltb delta.mpm min_wait
    then (if precise then 0 else min_wait)
    else if precise
    then 0
    else delta.mpm * 900

module _ {B : Type 0} where
  unfoldable pub get_state : Schedule B → ScheduleState
  get_state s = elim s.current_operation [
    | none ↦ if is_empty s.ops_queue then idle else waiting
    | some _ ↦ busy
  ]

  -- The first branch of `doWait`, where `next` is what `front` returns.
  unfoldable pub start_next : Schedule B → TimeStamp → Operation B → Schedule B × ℕ
  start_next s now next =
      if not_after next.ts_padded.start now
      then (
        record s {
          ops_queue = (pop_front s.ops_queue).1;
          current_operation = some next;
          notified_window_start = false;
          notified_execution_start = false;
          notified_execution_stop = false;
          notified_window_stop = false;
          current_is_cancelled = false;
        },
        0,
      )
      else (s, reasonable_wait_time next.ts_padded.start now true)

  unfoldable pub do_wait : Schedule B → TimeStamp → Exit (Schedule B × ℕ)
  do_wait s now = elim (front s.ops_queue) [
    | none ↦ fatal
    | some next ↦ returns (start_next s now next)
  ]

  -- The last branches of `doBusy`: the operation is done, or still working.
  unfoldable pub finish_or_wait : Schedule B → Bool → Schedule B × ℕ
  finish_or_wait s done = if done then (record s { current_operation = none }, 0) else (s, 1000)

module _ {B : Type 0} (run : Behaviour B) where
  -- The current operation after one of its functions was called.
  abbrev pub called : Operation B → (B → B) → Option (Operation B)
  called op f = some (record op { body = f op.body })

  -- The four timed branches of `doBusy`, each for the current operation.
  unfoldable pub window_start_step : Schedule B → Operation B → TimeStamp → Schedule B × ℕ
  window_start_step s op now =
      let w = op.ts_padded in
      let e = op.ts in
      if not_after w.start now
      then (
        record s {
          current_operation = called op run.do_window_start;
          notified_window_start = true;
          next_event = e.start;
        },
        0,
      )
      else (record s { next_event = w.start }, reasonable_wait_time w.start now true)

  unfoldable pub execution_start_step : Schedule B → Operation B → TimeStamp → Schedule B × ℕ
  execution_start_step s op now =
      let e = op.ts in
      let s' = record s {
        current_operation = called op run.do_execution_start;
        notified_execution_start = true;
      } in
      if not_after s.next_event now
      then (
        if e.duration == forever
            then record s' { notified_execution_stop = true; notified_window_stop = true }
            else record s' { next_event = add_time e.start e.duration },
        0,
      )
      else (s, reasonable_wait_time s.next_event now true)

  unfoldable pub execution_stop_step : Schedule B → Operation B → TimeStamp → Schedule B × ℕ
  execution_stop_step s op now =
      let w = op.ts_padded in
      if not_after s.next_event now
      then (
        record s {
          current_operation = called op run.do_execution_stop;
          notified_execution_stop = true;
          next_event = add_time w.start w.duration;
        },
        0,
      )
      else (s, reasonable_wait_time s.next_event now false)

  unfoldable pub window_stop_step : Schedule B → Operation B → TimeStamp → Schedule B × ℕ
  window_stop_step s op now =
      if not_after s.next_event now
      then (
        record s { current_operation = called op run.do_window_stop; notified_window_stop = true },
        0,
      )
      else (s, reasonable_wait_time s.next_event now false)

  -- `doBusy` for the current operation.
  unfoldable pub busy_step : Schedule B → Operation B → TimeStamp → Schedule B × ℕ
  busy_step s op now =
      if s.current_is_cancelled
      then finish_or_wait s (run.is_done op.body)
      else if not s.notified_window_start
      then window_start_step s op now
      else if not s.notified_execution_start
      then execution_start_step s op now
      else if not s.notified_execution_stop
      then execution_stop_step s op now
      else if not s.notified_window_stop
      then window_stop_step s op now
      else finish_or_wait s (run.is_done op.body)

  unfoldable pub do_busy : Schedule B → TimeStamp → Exit (Schedule B × ℕ)
  do_busy s now = elim s.current_operation [ none ↦ fatal | some op ↦ returns (busy_step s op now) ]

  -- One pass of the loop of `run`.
  unfoldable pub cycle : Schedule B → TimeStamp → Exit (Schedule B × ℕ)
  cycle s now = elim (get_state s) [
    | idle ↦ returns (s, 100000)
    | waiting ↦ do_wait s now
    | busy ↦ do_busy s now
  ]
