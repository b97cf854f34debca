-- ===== src/Operations/Record/Marks.antt =====
-- How a recording leaves the attribute `opComplete` of its file.
use data_recorder.Base.{◌≡◌, refl, ℕ, Bool, true, false, some, Bool-cases, inl, inr, List, arith}
use data_recorder.Streaming.Tickets.{Pool, Subscriber}
use data_recorder.Streaming.Buffer.{Iovec}
use data_recorder.Streaming.Recorder.{WriteResult}
use data_recorder.Streaming.Writer.{
  FileWriter, io_error, fws_done, Round, notify, is_open_file, on_init, on_connected,
  on_disconnected, on_uninit, on_done, receive, wind_up, run,
}
use data_recorder.Streaming.Writer.Runs.{init_opens}
use data_recorder.Operations.Record.{
  RecordOperation, done, tag_file_meta, on_fw_thread_stop, do_window_stop, ask_to_stop, stop,
  execution_stop,
}

-- A thread that gave up with an error.
pub record HasFailed (r : FileWriter) : Type 0 where
  pub error : r.error_occurred ≡ true
  pub no_size_limit : r.size_limit_reached ≡ false
  pub no_time_limit : r.time_limit_reached ≡ false
  pub not_stopped : r.manually_stopped ≡ false

module _ {W : Type 0} (writev : W → List Iovec → W × WriteResult) (frames : ℕ → List Iovec) where
  wind_up-failed :
      (s : FileWriter × W × Pool × Subscriber × Bool)
      → (wind_up writev frames s).4 ≡ true
      → HasFailed (wind_up writev frames s).0
      → ((wind_up writev frames s).0.reason ≡ some io_error)
        × ((wind_up writev frames s).0.state ≡ fws_done)
  unfolding wind_up on_disconnected on_uninit on_done notify
  wind_up-failed (r, w, p, q, false) e h = absurd (cc)
  wind_up-failed (r, w, p, q, true) e h =
      let error = h.error in
      let size = h.no_size_limit in
      let time = h.no_time_limit in let manual = h.not_stopped in (ground arith, ground arith)

  run_failed :
      (rounds : List Round) (w : W) (r : FileWriter) (p : Pool) (q : Subscriber)
      → is_open_file r.file ≡ true
      → let s = run writev frames true rounds w r p q in
        s.4 ≡ true → HasFailed s.0 → (s.0.reason ≡ some io_error) × (s.0.state ≡ fws_done)
  unfolding run
  run_failed rounds w r p q is_open =
      rw (init_opens r is_open, run)
        (wind_up-failed (receive writev frames rounds w (on_connected (on_init r).0) p q))

  -- When the writer's thread has given up with an error before the end of the slot, the calls of the scheduler at
  -- the end leave the file marked as complete, with the reason that an I/O error occurred. Nothing was stopped by hand, no
  -- limit was reached, and the calls of others during the sleep do not matter.
  pub recording_of_failed :
      (sleep : Bool → FileWriter → FileWriter) (op : RecordOperation) (rounds : List Round) (w : W)
      (r : FileWriter) (p : Pool) (q : Subscriber)
      → is_open_file r.file ≡ true
      → (run writev frames true rounds w r p q).4 ≡ true
      → HasFailed (run writev frames true rounds w r p q).0
      → let failed = (run writev frames true rounds w r p q).0 in
        let op' = do_window_stop (
          execution_stop sleep
            (λ _ x. x)
            false
            (record op { writer = on_fw_thread_stop failed })) in
        (op'.is_done ≡ true)
        × (op'.writer.op_complete ≡ some true)
        × (op'.writer.reason ≡ some io_error)
        × (op'.writer.error_occurred ≡ true)
  unfolding do_window_stop done execution_stop ask_to_stop stop tag_file_meta on_fw_thread_stop
  recording_of_failed sleep op rounds w r p q is_open returned h =
      let (why, over) = run_failed rounds w r p q is_open returned h in
      let error = h.error in
      elim (Bool-cases op.running) [
        | inl e ↦ rw (over, e) (refl, refl, why, error)
        | inr e ↦ rw (over, e) (refl, refl, why, error)
      ]
