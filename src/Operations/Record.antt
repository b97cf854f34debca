-- ===== src/Operations/Record.antt =====
-- DROS2/Operations/RecordOperation.h, with the flags of Operation.h: a recording as the scheduler's operation. Its writer
-- is the thread of Streaming/Writer. `sleep` is what the thread does while the operation sleeps, and
-- `join` what it does until it is joined, both by whether it is interrupted; a thread that was not
-- started does nothing. Of the attributes only `opComplete` is kept, the other ones are texts for people.
pub mod Marks
use data_recorder.Base.{Bool, true, false, some, if◌then◌else◌, not}
use data_recorder.Schedule.Operation.{Behaviour}
use data_recorder.Streaming.Writer.{
  FileWriter, FileWriterState, fws_invalid, fws_initialized, fws_connected, fws_recording,
  fws_disconnected, fws_uninit, fws_done, stop_recording,
}

-- `running` is whether the thread was started, `aborted` whether it is interrupted.
pub record RecordOperation : Type 0 where
  pub is_started : Bool
  pub is_done : Bool
  pub running : Bool
  pub aborted : Bool
  pub writer : FileWriter

unfoldable pub record_operation : FileWriter → RecordOperation
record_operation writer = record {
  is_started = false;
  is_done = false;
  running = false;
  aborted = false;
  writer = writer;
}

-- `Operation::done`
unfoldable pub done : RecordOperation → RecordOperation
done op = record op { is_done = true }

unfoldable pub tag_file_meta : Bool → FileWriter → FileWriter
tag_file_meta complete writer = record writer { op_complete = some complete }

-- The owner's part of the writer's `onDone`.
unfoldable pub on_fw_thread_stop : FileWriter → FileWriter
unfolding tag_file_meta
on_fw_thread_stop writer = tag_file_meta false writer

abbrev pub is_fws_done : FileWriterState → Bool
is_fws_done fws_done = true
is_fws_done _ = false

unfoldable pub do_window_start : RecordOperation → RecordOperation
do_window_start op = record op { is_started = true; running = true }

unfoldable pub do_window_stop : RecordOperation → RecordOperation
unfolding done
do_window_stop op = done op

module _ (sleep join : Bool → FileWriter → FileWriter) where
  -- `stopRecording`, the sleep and `doAbort`.
  unfoldable pub ask_to_stop : RecordOperation → RecordOperation
  unfolding stop_recording
  ask_to_stop op =
      if is_fws_done op.writer.state
      then op
      else let stopped = stop_recording op.writer in
        let slept = if op.running then sleep op.aborted stopped else stopped in
        if is_fws_done slept.state
        then record op { writer = slept }
        else record op { writer = slept; aborted = true }

  -- `writer.stop`
  unfoldable pub stop : RecordOperation → RecordOperation
  stop op = record op { writer = if op.running then join op.aborted op.writer else op.writer }

  -- `__doExecutionStop`
  unfoldable pub execution_stop : Bool → RecordOperation → RecordOperation
  unfolding ask_to_stop stop tag_file_meta
  execution_stop cancelled op =
      let op' = stop (ask_to_stop op) in
      record op' { writer = tag_file_meta (not cancelled) op'.writer }

  unfoldable pub do_cancel : RecordOperation → RecordOperation × Bool
  unfolding execution_stop done
  do_cancel op = (done (execution_stop true op), true)

  -- A recording as the scheduler sees it.
  unfoldable pub recording : Behaviour RecordOperation
  unfolding do_cancel do_window_start execution_stop do_window_stop
  recording = record {
    do_cancel = do_cancel;
    do_window_start = do_window_start;
    do_execution_start = λ op. op;
    do_execution_stop = execution_stop false;
    do_window_stop = do_window_stop;
    is_done = λ op. op.is_done;
  }
