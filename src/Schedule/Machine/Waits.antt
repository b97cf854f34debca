-- ===== src/Schedule/Machine/Waits.antt =====
-- How long the scheduler sleeps before an event.
use data_recorder.Base.{◌≡◌, ◌≤◌, ◌↔◌, ◌≢◌, true, false, arith}
use data_recorder.Time.{TimeStamp, get_time_stamp_delta}
use data_recorder.Schedule.Machine.{reasonable_wait_time}

-- A precise wait is 0 microseconds, so that the loop does not sleep, exactly if the event is at most
-- 200000 milliseconds (200 seconds) ahead or past. Any other wait is never 0, and at most 180000000
-- microseconds (180 seconds).
pub reasonable_wait_time_lem :
    (next_event now : TimeStamp)
    → let delta = get_time_stamp_delta now next_event in
      ((reasonable_wait_time next_event now true ≡ 0) ↔ ((delta.mjd ≡ 0) × (delta.mpm ≤ 200000)))
      × (reasonable_wait_time next_event now false ≢ 0)
      × (reasonable_wait_time next_event now false ≤ 180000000)
unfolding reasonable_wait_time
reasonable_wait_time_lem next_event now = ground arith
