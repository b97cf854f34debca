-- ===== src/Tests/Writing.antt =====
-- The thread of a recording, at concrete inputs.
use data_recorder.Base.{
  ℕ, ◌≡◌, refl, Bool, true, false, none, some, List, [], ◌∷◌, ◌++◌, arith, inr,
}
use data_recorder.Base.Int.{pos}
use data_recorder.Time.{TimeStamp, compare_slot_stamp, add_time, compare_timestamps}
use data_recorder.Time.Stamps.{IsStamp}
use data_recorder.Streaming.Tickets.{
  new_ticket, Pool, Subscriber, put, update, release_ticket, get_next, on_reset, put_all,
}
use data_recorder.Streaming.Buffer.{Iovec}
use data_recorder.Streaming.Recorder.{WriteResult, failed, vector_of, is_writable}
use data_recorder.Streaming.Writer.{
  FileWriter, fws_invalid, io_error, has_ended, Round, run, on_init, on_connected, on_done,
  on_uninit, on_disconnected, receive, round, wind_up, on_receive_loop_start, can_continue, notify,
  on_ticket_received, notify_start, check_size, write_ticket, write_loop, judge, conclude,
  stop_recording,
}
use data_recorder.Streaming.Writer.Runs.{HasEnded, run_ends}
use data_recorder.Streaming.Writer.Late.{run_never_late}
use data_recorder.Streaming.Writer.Shared.{on_ticket_received-shared}
use data_recorder.Operations.Record.{
  RecordOperation, do_window_stop, execution_stop, on_fw_thread_stop,
}
use data_recorder.Operations.Record.Marks.{HasFailed, recording_of_failed}

abbrev day : ℕ → TimeStamp
day mpm = record { mjd = 60000; mpm = mpm }

-- A second from midnight on.
abbrev writer : FileWriter
writer = record {
  owner = true;
  file = some (record { is_open = true; descriptor = some (pos 3) });
  bytes_written_this_file = 0;
  ts = record { start = day 0; duration = 1000 };
  size_limit = 0;
  size_limit_reached = false;
  time_limit_reached = false;
  manually_stopped = false;
  error_occurred = false;
  notified_started = false;
  state = fws_invalid;
  events = [];
  op_complete = none;
  reason = none;
}

abbrev shared_pool : Pool
shared_pool = record {
  tickets = λ _. record new_ticket {
    cnt_alloc = 2;
    fsize = 4;
    cnt_used = 2;
    ref_cnt = 2;
    continuous = true;
  };
  free_tickets = [];
}

abbrev vectors : ℕ → List Iovec
vectors _ = record { iov_base = 0; iov_len = 4 } ∷ record { iov_base = 4; iov_len = 4 } ∷ []

-- Every call fails with EIO.
abbrev broken_disk : ℕ → List Iovec → ℕ × WriteResult
broken_disk w io = (w, failed 5)

abbrev one_ticket : Subscriber
one_ticket = record { sub_name = 1; disconnected = false; queue = 6 ∷ [] }

abbrev at_time : Bool → ℕ → Round
at_time stop mpm = record {
  interrupted = false;
  stop_before = stop;
  stop_between = false;
  now = day mpm;
  others = λ p q. (p, q);
}

-- Long after the end of the slot, the thread is still recording when it is stopped.
run_ends_example :
    let s =
      run broken_disk vectors true
        (at_time false 5000 ∷ at_time true 6000 ∷ [])
        0
        writer
        shared_pool
        (record one_ticket { queue = [] }) in
    HasEnded s.0 s.3 s.4
run_ends_example =
    run_ends broken_disk vectors (at_time false 5000 ∷ []) [] (at_time true 6000) 0 writer
      shared_pool (record one_ticket { queue = [] }) refl (inr refl)

day-IsStamp : IsStamp (day 0) × IsStamp (day 5000) × IsStamp (day 6000)
day-IsStamp = (
  record { in_day = omega arith; fits = omega arith },
  record { in_day = omega arith; fits = omega arith },
  record { in_day = omega arith; fits = omega arith },
)

run_never_late_example :
    let s =
      run broken_disk vectors true
        (at_time false 5000 ∷ at_time true 6000 ∷ [])
        0
        writer
        shared_pool
        (record one_ticket { queue = [] }) in
    (s.0.time_limit_reached ≡ false) × (s.0.op_complete ≡ some s.0.size_limit_reached)
run_never_late_example =
    run_never_late broken_disk vectors (at_time false 5000 ∷ []) [] (at_time true 6000) 0 writer
      shared_pool (record one_ticket { queue = [] }) refl refl day-IsStamp.0
      (day-IsStamp.1, (day-IsStamp.2, tt)) (inr refl)

shared_example :
    let p' = (on_ticket_received broken_disk vectors (day 500) 0 writer shared_pool 6).2 in
    (has_ended writer ≡ false → ((p'.tickets 6).ref_cnt ≡ 1) × (p'.free_tickets ≡ []))
    × (has_ended writer ≡ true → p'.free_tickets ≡ [] ++ 6 ∷ [])
shared_example = on_ticket_received-shared broken_disk vectors (day 500) 0 writer shared_pool 6 refl

failed_run :
    (run broken_disk vectors true (at_time false 500 ∷ []) 0 writer shared_pool one_ticket).4 ≡ true
unfolding run on_init on_connected on_done on_uninit on_disconnected receive round wind_up
    on_receive_loop_start can_continue notify on_ticket_received notify_start check_size
    write_ticket write_loop judge conclude stop_recording vector_of is_writable has_ended
    compare_slot_stamp add_time compare_timestamps get_next on_reset put_all put update
    release_ticket
failed_run = refl

failed_run-HasFailed :
    HasFailed
      (run broken_disk vectors true (at_time false 500 ∷ []) 0 writer shared_pool one_ticket).0
unfolding run on_init on_connected on_done on_uninit on_disconnected receive round wind_up
    on_receive_loop_start can_continue notify on_ticket_received notify_start check_size
    write_ticket write_loop judge conclude stop_recording vector_of is_writable has_ended
    compare_slot_stamp add_time compare_timestamps get_next on_reset put_all put update
    release_ticket
failed_run-HasFailed = record {
  error = refl;
  no_size_limit = refl;
  no_time_limit = refl;
  not_stopped = refl;
}

abbrev started_recording : RecordOperation
started_recording = record {
  is_started = true;
  is_done = false;
  running = true;
  aborted = false;
  writer = writer;
}

recording_of_failed_example :
    let failed =
      (run broken_disk vectors true (at_time false 500 ∷ []) 0 writer shared_pool one_ticket).0 in
    let op' = do_window_stop (
      execution_stop
        (λ _ x. x)
        (λ _ x. x)
        false
        (record started_recording { writer = on_fw_thread_stop failed })) in
    (op'.is_done ≡ true)
    × (op'.writer.op_complete ≡ some true)
    × (op'.writer.reason ≡ some io_error)
    × (op'.writer.error_occurred ≡ true)
recording_of_failed_example =
    recording_of_failed broken_disk vectors (λ _ x. x) started_recording (at_time false 500 ∷ []) 0
      writer shared_pool one_ticket refl failed_run failed_run-HasFailed
