-- ===== src/Schedule/Requests.antt =====
-- DROS2/Actors/Schedule.cpp: what the message processor asks of the scheduler. Entries are returned
-- as operations, where the source returns their text; an empty text is `none`.
pub mod Queueing
pub mod Interleaving
pub mod Undo
use data_recorder.Base.{
  ℕ, zero, suc, ◌+◌, ◌-◌, Bool, true, false, Option, none, some, List, [], ◌∷◌, ltb, ◌==◌, leb,
  if◌then◌else◌,
}
use data_recorder.Base.Int.{ℤ, pos, negsuc}
use data_recorder.Time.{TimeSlot}
use data_recorder.Schedule.Operation.{Operation, Behaviour}
use data_recorder.Schedule.Queue.{
  insert, find_conflict, find_by_index, find_by_ref, remove_by_ref, get_size,
}
use data_recorder.Schedule.Machine.{Schedule}

-- The messages that `cancelOperation` leaves in `comment`.
pub data Comment : Type 0 where
  no_comment cannot_cancel : Comment
  not_found : ℕ → Comment

-- The argument of `scheduleOperation`: a null pointer, the idle operation, or another one.
pub data Request (B : Type 0) : Type 0 where
  null_pointer op_idle : Request B
  operation : Operation B → Request B

-- A new state of the first operation in the queue with the reference.
pub set_body : {B : Type 0} → ℕ → B → List (Operation B) → List (Operation B)
set_body r body [] = []
set_body r body (op ∷ rest) =
    if op.reference == r then record op { body = body } ∷ rest else op ∷ set_body r body rest

module _ {B : Type 0} where
  -- Whether the slot is free, and the operation in its way.
  unfoldable pub is_time_slot_free : Schedule B → TimeSlot → Bool × Option (Operation B)
  is_time_slot_free s ts = elim (find_conflict ts s.ops_queue) [
    | none ↦ (true, none)
    | some op ↦ (false, some op)
  ]

  -- The new state, whether the operation was scheduled, and the operation in its way.
  unfoldable pub schedule_operation :
      Schedule B → Request B → Schedule B × Bool × Option (Operation B)
  schedule_operation s null_pointer = (s, false, none)
  schedule_operation s op_idle = (s, false, none)
  schedule_operation s (operation op) =
      let (conflict, queue) = insert op s.ops_queue in
      let s' = record s { ops_queue = queue } in
      elim conflict [ none ↦ (s', true, none) | some c ↦ (s', false, some c) ]

  unfoldable pub get_schedule_entry_count : Schedule B → ℕ
  get_schedule_entry_count s = get_size s.ops_queue

  -- Entry `i` from the front, counted from 1, or from the back if `i` is negative.
  unfoldable pub get_schedule_entry : Schedule B → ℤ → Option (Operation B)
  get_schedule_entry s (pos zero) = none
  get_schedule_entry s (pos (suc j)) =
      if leb (get_size s.ops_queue) j then none else find_by_index j s.ops_queue
  get_schedule_entry s (negsuc n) =
      let k = get_size s.ops_queue in
      if ltb k (n + 1) then none else find_by_index (k - (n + 1)) s.ops_queue

module _ {B : Type 0} (run : Behaviour B) where
  unfoldable pub do_cancel_current : Schedule B → Schedule B × Bool
  do_cancel_current s = elim s.current_operation [
    | none ↦ (s, false)
    | some op ↦
        let (body, cancelled) = run.do_cancel op.body in
        let s' = record s { current_operation = some (record op { body = body }) } in
        if cancelled then (record s' { current_is_cancelled = true }, true) else (s', false)
  ]

  -- The branch of `cancelOperation` for an operation that is not the current one.
  cancel_queued : Schedule B → ℕ → Schedule B × Bool × Comment
  unfolding set_body
  cancel_queued s reference = elim (find_by_ref reference s.ops_queue) [
    | none ↦ (s, false, not_found reference)
    | some op ↦
        let (body, cancelled) = run.do_cancel op.body in
        if cancelled
        then (record s { ops_queue = remove_by_ref reference s.ops_queue }, true, no_comment)
        else (record s { ops_queue = set_body reference body s.ops_queue }, false, cannot_cancel)
  ]

  abbrev pub current_has_ref : Schedule B → ℕ → Bool
  current_has_ref s reference = elim s.current_operation [
    | none ↦ false
    | some op ↦ op.reference == reference
  ]

  unfoldable pub cancel_operation : Schedule B → ℕ → Schedule B × Bool × Comment
  unfolding cancel_queued do_cancel_current
  cancel_operation s reference =
      let (s', cancelled) = do_cancel_current s in
      if current_has_ref s reference
      then (if cancelled then (s', true, no_comment) else (s', false, cannot_cancel))
      else cancel_queued s reference

  -- Whether every operation is done right after its `doCancel`.
  pub all_done : List (Operation B) → Bool
  all_done [] = true
  all_done (op ∷ rest) =
      let others = all_done rest in if run.is_done (run.do_cancel op.body).0 then others else false

  -- `doAbort` cancels the queued operations and the current one, and waits for each to be done.
  -- `none` if one is not done by its `doCancel`: the wait then ends only when another thread
  -- makes it done.
  unfoldable pub do_abort : Schedule B → Option (Schedule B)
  unfolding all_done
  do_abort s =
      let current_done : Bool = elim s.current_operation [
        | none ↦ true
        | some op ↦ run.is_done (run.do_cancel op.body).0
      ] in
      let s' = record s { ops_queue = []; current_operation = none } in
      if all_done s.ops_queue then (if current_done then some s' else none) else none
