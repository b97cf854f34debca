-- ===== src/Schedule/Requests/Undo.antt =====
-- An operation that a client schedules and cancels again.
use mathlib.Core.List.{Memᴰ}
use data_recorder.Base.{
  ◌+◌, ◌≡◌, ◌⊎◌, inl, inr, refl, ap, true, false, none, some, List, [], ◌∷◌, ◌==◌, length, arith,
  Bool-cases, Option-cases, Ordering-cases,
}
use data_recorder.Time.{compare_slots}
use data_recorder.Schedule.Operation.{Operation, Behaviour}
use data_recorder.Schedule.Queue.{insert, find_by_ref, remove_by_ref}
use data_recorder.Schedule.Queue.Order.{
  Apart, IsOrdered, HasSlot, Clear, insert-none_iff, insert_conflict,
}
use data_recorder.Schedule.Machine.{Schedule}
use data_recorder.Schedule.Requests.{
  null_pointer, op_idle, operation, no_comment, schedule_operation, cancel_operation, cancel_queued,
  current_has_ref,
}

module _ {B : Type 0} where
  -- What inserting an operation with a new reference does to a queue that accepts it.
  record IsAdded (op : Operation B) (ops added : List (Operation B)) : Type 0 where
    found : find_by_ref op.reference added ≡ some op
    removed : remove_by_ref op.reference added ≡ ops
    longer : length added ≡ length ops + 1

  IsAdded-front : (op : Operation B) (ops : List (Operation B)) → IsAdded op ops (op ∷ ops)
  unfolding find_by_ref remove_by_ref
  IsAdded-front op ops =
      let same : (op.reference == op.reference) ≡ true = ground arith in
      record { found = rw same refl; removed = rw same refl; longer = omega arith }

  IsAdded-cons :
      (op next : Operation B) (ops added : List (Operation B))
      → (next.reference == op.reference) ≡ false
      → IsAdded op ops added
      → IsAdded op (next ∷ ops) (next ∷ added)
  unfolding find_by_ref remove_by_ref
  IsAdded-cons op next ops added other a = record {
    found = rw other a.found;
    removed = rw other (ap (λ l. next ∷ l) a.removed);
    longer = omega (arith, a.longer);
  }

  insert-IsAdded :
      (op : Operation B) (ops : List (Operation B))
      → find_by_ref op.reference ops ≡ none
      → (insert op ops).0 ≡ none
      → IsAdded op ops (insert op ops).1
  unfolding insert find_by_ref
  insert-IsAdded op [] fresh e = IsAdded-front op []
  insert-IsAdded op (next ∷ rest) fresh e =
      elim (Ordering-cases (compare_slots op.ts_padded next.ts_padded)) [
        | inl c ↦ rw (c, insert) (IsAdded-front op (next ∷ rest))
        | inr (inl c) ↦ absurd (ground (arith, c, e))
        | inr (inr c) ↦ elim (Bool-cases (next.reference == op.reference)) [
          | inl f ↦ absurd (ground (arith, f, fresh))
          | inr f ↦
              let fresh' : find_by_ref op.reference rest ≡ none = rw f at fresh in
              let e' : (insert op rest).0 ≡ none = rw (c, insert) at e in
              rw (c, insert)
                (IsAdded-cons op next rest (insert op rest).1 f (insert-IsAdded op rest fresh' e'))
        ]
      ]

  -- The scheduler with another queue.
  abbrev with_queue : Schedule B → List (Operation B) → Schedule B
  with_queue s ops = record s { ops_queue = ops }

module _ {B : Type 0} (run : Behaviour B) where
  cancel-added :
      (s : Schedule B) (op : Operation B) (added : List (Operation B))
      → IsAdded op s.ops_queue added
      → current_has_ref run s op.reference ≡ false
      → (run.do_cancel op.body).1 ≡ true
      → cancel_operation run (with_queue s added) op.reference ≡ (s, true, no_comment)
  unfolding cancel_operation cancel_queued find_by_ref
  cancel-added s op added a other agrees = rw (other, a.found, agrees, a.removed) refl

  -- For an ordered queue, and an operation with a well-formed slot that agrees to be cancelled and whose
  -- reference neither a queued operation nor the current one has: a null pointer and the idle operation
  -- are refused, and the scheduler stays as it was. The operation is refused exactly if its padded slot
  -- is not apart from those of all queued operations; then the scheduler stays as it was, and a queued
  -- operation whose padded slot is not apart from its own is returned. Else it is scheduled: the
  -- queue is longer by one, the operation is found by its reference, and cancelling this reference
  -- succeeds and brings back the scheduler as it was before.
  pub schedule-cancel :
      (s : Schedule B) (op : Operation B)
      → HasSlot op
      → IsOrdered s.ops_queue
      → find_by_ref op.reference s.ops_queue ≡ none
      → current_has_ref run s op.reference ≡ false
      → (run.do_cancel op.body).1 ≡ true
      → (schedule_operation s null_pointer ≡ (s, false, none))
        × (schedule_operation s op_idle ≡ (s, false, none))
        × ((¬ Clear op s.ops_queue
              × (c : Operation B) × (schedule_operation s (operation op) ≡ (s, false, some c))
              × Memᴰ c s.ops_queue
              × ¬ Apart op.ts_padded c.ts_padded)
            ⊎ (Clear op s.ops_queue
                × (s' : Schedule B) × (schedule_operation s (operation op) ≡ (s', true, none))
                × (length s'.ops_queue ≡ length s.ops_queue + 1)
                × (find_by_ref op.reference s'.ops_queue ≡ some op)
                × (cancel_operation run s' op.reference ≡ (s, true, no_comment))))
  unfolding schedule_operation
  schedule-cancel s op h v fresh other agrees =
      let (clear, accepted) = insert-none_iff op s.ops_queue h v in
      (
        refl,
        refl,
        elim (Option-cases (insert op s.ops_queue).0) [
          | inl e ↦
              let a = insert-IsAdded op s.ops_queue fresh e in
              let added = (insert op s.ops_queue).1 in
              inr (
                clear e,
                with_queue s added,
                rw (e, schedule_operation) refl,
                a.longer,
                a.found,
                cancel-added s op added a other agrees,
              )
          | inr (c, e) ↦
              let (same, queued, hit) = insert_conflict op c s.ops_queue h v e in
              inl (
                λ k. absurd (ground (arith, e, accepted k)),
                c,
                rw (e, same, schedule_operation) refl,
                queued,
                hit,
              )
        ],
      )
