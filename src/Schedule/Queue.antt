-- ===== src/Schedule/Queue.antt =====
-- DROS2/Actors/OpsQueue.h: the queue as the list of its operations, first to run first.
-- A null pointer is `none`; the locks make each call one step. No null pointer is ever inserted.
pub mod Order
pub mod Find
use data_recorder.Base.{
  ℕ, zero, suc, ◌+◌, Bool, true, false, Option, none, some, List, [], ◌∷◌, Ordering, ◌==◌,
  if◌then◌else◌, length,
}
use data_recorder.Time.{TimeSlot, overlaps, compare_slots}
use data_recorder.Schedule.Operation.{Operation}

module _ {B : Type 0} where
  -- `none` if the operation was inserted, else the operation in its way.
  unfoldable pub insert :
      Operation B → List (Operation B) → Option (Operation B) × List (Operation B)
  insert op [] = (none, op ∷ [])
  insert op (next ∷ rest) =
      let found = insert op rest in
      elim (compare_slots op.ts_padded next.ts_padded) [
        | Ordering.gt ↦ (found.0, next ∷ found.1)
        | Ordering.lt ↦ (none, op ∷ next ∷ rest)
        | Ordering.eq ↦ (some next, next ∷ rest)
      ]

  unfoldable pub find_conflict : TimeSlot → List (Operation B) → Option (Operation B)
  find_conflict ts [] = none
  find_conflict ts (op ∷ rest) = if overlaps ts op.ts_padded then some op else find_conflict ts rest

  -- The loop of `find_by_index`, which counts `cur` up to the index.
  pub find_from : ℕ → ℕ → List (Operation B) → Option (Operation B)
  find_from cur i [] = none
  find_from cur i (op ∷ rest) = if cur == i then some op else find_from (cur + 1) i rest

  unfoldable pub find_by_index : ℕ → List (Operation B) → Option (Operation B)
  unfolding find_from
  find_by_index i ops = find_from 0 i ops

  unfoldable pub find_by_ref : ℕ → List (Operation B) → Option (Operation B)
  find_by_ref reference [] = none
  find_by_ref reference (op ∷ rest) =
      if op.reference == reference then some op else find_by_ref reference rest

  -- What is left of the queue; the operation taken out is the one that `find_by_ref` finds.
  unfoldable pub remove_by_ref : ℕ → List (Operation B) → List (Operation B)
  remove_by_ref reference [] = []
  remove_by_ref reference (op ∷ rest) =
      if op.reference == reference then rest else op ∷ remove_by_ref reference rest

  unfoldable pub front : List (Operation B) → Option (Operation B)
  front [] = none
  front (op ∷ rest) = some op

  unfoldable pub pop_front : List (Operation B) → Option (Operation B) × List (Operation B)
  pop_front [] = (none, [])
  pop_front (op ∷ rest) = (some op, rest)

  unfoldable pub is_empty : List (Operation B) → Bool
  is_empty [] = true
  is_empty (op ∷ rest) = false

  unfoldable pub get_size : List (Operation B) → ℕ
  get_size ops = length ops
