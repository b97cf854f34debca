-- ===== src/Schedule/Requests/Queueing.antt =====
-- What the scheduler's clients and its own loop do to the queue.
use data_recorder.Base.{
  ℕ, zero, suc, ◌+◌, ◌-◌, ◌≡◌, ◌⊎◌, inl, inr, refl, sym, subst, ◌≤◌, ◌<◌, none, List, [], ◌∷◌,
  length, All, arith, Bool-cases, Option-cases, ◌==◌, get_elem?,
}
use data_recorder.Base.Int.{pos, negsuc}
use data_recorder.Schedule.Operation.{Operation, Behaviour}
use data_recorder.Schedule.Queue.{insert, find_by_ref, remove_by_ref, get_size}
use data_recorder.Schedule.Queue.Order.{IsOrdered, Precedes, HasSlot, insert-IsOrdered}
use data_recorder.Schedule.Queue.Find.{remove_by_ref-IsOrdered, find_by_index_lem}
use data_recorder.Schedule.Machine.{Schedule}
use data_recorder.Schedule.Requests.{
  operation, set_body, schedule_operation, get_schedule_entry, cancel_operation, do_cancel_current,
  cancel_queued,
}

module _ {B : Type 0} where
  All-set_body :
      (op : Operation B) (r : ℕ) (body : B) (ops : List (Operation B))
      → All (Precedes op) ops
      → All (Precedes op) (set_body r body ops)
  unfolding set_body
  All-set_body op r body [] h = tt
  All-set_body op r body (x ∷ rest) h = elim (Bool-cases (x.reference == r)) [
    | inl e ↦ rw e h
    | inr e ↦ rw e (h.0, All-set_body op r body rest h.1)
  ]

  set_body-IsOrdered :
      (r : ℕ) (body : B) (ops : List (Operation B))
      → IsOrdered ops
      → IsOrdered (set_body r body ops)
  unfolding set_body
  set_body-IsOrdered r body [] v = tt
  set_body-IsOrdered r body (x ∷ rest) v = elim (Bool-cases (x.reference == r)) [
    | inl e ↦ rw e v
    | inr e ↦ rw e (v.0, All-set_body x r body rest v.1, set_body-IsOrdered r body rest v.2)
  ]

  schedule-ops_queue :
      (s : Schedule B) (op : Operation B)
      → (schedule_operation s (operation op)).0.ops_queue ≡ (insert op s.ops_queue).1
  unfolding schedule_operation
  schedule-ops_queue s op = ground arith

  pub schedule-IsOrdered :
      (s : Schedule B) (op : Operation B)
      → HasSlot op
      → IsOrdered s.ops_queue
      → IsOrdered (schedule_operation s (operation op)).0.ops_queue
  schedule-IsOrdered s op h v =
      subst IsOrdered (sym (schedule-ops_queue s op)) (insert-IsOrdered op s.ops_queue h v)

  -- Entry 1 is the front of the queue and entry -1 its back: for `n` below the length `k`, entry
  -- `n + 1` is the element `n` and entry `-(n + 1)` the element `k - (n + 1)`; entry 0 and all
  -- others are empty.
  pub get_schedule_entry_lem :
      (s : Schedule B) (n : ℕ)
      → let k = length s.ops_queue in
        (get_schedule_entry s (pos (suc n)) ≡ get_elem? s.ops_queue n)
        × (n < k → get_schedule_entry s (negsuc n) ≡ get_elem? s.ops_queue (k - (n + 1)))
        × (k ≤ n → get_schedule_entry s (negsuc n) ≡ none)
        × (get_schedule_entry s (pos zero) ≡ none)
  unfolding get_schedule_entry get_size
  get_schedule_entry_lem s n = ground (
    arith,
    find_by_index_lem n s.ops_queue,
    out_of_range n s.ops_queue,
    find_by_index_lem (length s.ops_queue - (n + 1)) s.ops_queue,
  )
    where
      out_of_range : (n : ℕ) (ops : List (Operation B)) → length ops ≤ n → get_elem? ops n ≡ none
      out_of_range n [] h = refl
      out_of_range zero (x ∷ ops) h = absurd (omega arith)
      out_of_range (suc n) (x ∷ ops) h = out_of_range n ops (omega arith)

module _ {B : Type 0} (run : Behaviour B) where
  -- Cancelling a queued operation leaves the queue, takes the operation out or updates its state.
  cancel_queued-ops_queue :
      (s : Schedule B) (r : ℕ)
      → let queue = (cancel_queued run s r).0.ops_queue in
        (queue ≡ s.ops_queue)
        ⊎ (queue ≡ remove_by_ref r s.ops_queue)
        ⊎ (body : B) × (queue ≡ set_body r body s.ops_queue)
  unfolding cancel_queued
  cancel_queued-ops_queue s r = elim (Option-cases (find_by_ref r s.ops_queue)) [
    | inl e ↦ inl (ground arith)
    | inr (op, e) ↦ elim (Bool-cases (run.do_cancel op.body).1) [
      | inl c ↦ inr (inl (ground arith))
      | inr c ↦ inr (inr ((run.do_cancel op.body).0, ground arith))
    ]
  ]

  cancel-ops_queue :
      (s : Schedule B) (r : ℕ)
      → let queue = (cancel_operation run s r).0.ops_queue in
        (queue ≡ s.ops_queue) ⊎ (queue ≡ (cancel_queued run s r).0.ops_queue)
  unfolding cancel_operation do_cancel_current
  cancel-ops_queue s r = ground arith

  cancel_queued-IsOrdered :
      (s : Schedule B) (r : ℕ)
      → IsOrdered s.ops_queue
      → IsOrdered (cancel_queued run s r).0.ops_queue
  cancel_queued-IsOrdered s r v = elim (cancel_queued-ops_queue s r) [
    | inl e ↦ subst IsOrdered (sym e) v
    | inr (inl e) ↦ subst IsOrdered (sym e) (remove_by_ref-IsOrdered r s.ops_queue v)
    | inr (inr (body, e)) ↦ subst IsOrdered (sym e) (set_body-IsOrdered r body s.ops_queue v)
  ]

  pub cancel-IsOrdered :
      (s : Schedule B) (r : ℕ)
      → IsOrdered s.ops_queue
      → IsOrdered (cancel_operation run s r).0.ops_queue
  cancel-IsOrdered s r v = elim (cancel-ops_queue s r) [
    | inl e ↦ subst IsOrdered (sym e) v
    | inr e ↦ subst IsOrdered (sym e) (cancel_queued-IsOrdered s r v)
  ]
