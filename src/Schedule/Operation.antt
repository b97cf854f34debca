-- ===== src/Schedule/Operation.antt =====
-- DROS2/Operations/ScheduledOperation.h: what the scheduler knows of an operation. `B` is the state
-- of the derived class (recording, dump, ...), and `Behaviour` its virtual functions.
use data_recorder.Base.{ℕ, Bool}
use data_recorder.Time.{TimeSlot, apply_window}

pub record Operation (B : Type 0) : Type 0 where
  pub reference : ℕ
  pub ts : TimeSlot
  pub ts_padded : TimeSlot
  pub body : B

pub record Behaviour (B : Type 0) : Type 0 where
  pub do_cancel : B → B × Bool
  pub do_window_start : B → B
  pub do_execution_start : B → B
  pub do_execution_stop : B → B
  pub do_window_stop : B → B
  pub is_done : B → Bool

-- `SCHEDULING_WINDOW`
abbrev pub scheduling_window : ℕ
scheduling_window = 2500

-- The constructor.
unfoldable pub scheduled_operation : {B : Type 0} → ℕ → TimeSlot → B → Operation B
scheduled_operation reference ts body = record {
  reference = reference;
  ts = ts;
  ts_padded = apply_window ts scheduling_window;
  body = body;
}
