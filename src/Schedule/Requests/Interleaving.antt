-- ===== src/Schedule/Requests/Interleaving.antt =====
-- The scheduler's thread and its clients take turns: each call holds the lock, so that it is one step.
use data_recorder.Base.{
  ℕ, ◌≡◌, sym, subst, true, none, some, List, [], ◌∷◌, arith, returns, fatal, Option-cases, inl,
  inr, ◌⊎◌,
}
use data_recorder.Time.{TimeStamp}
use data_recorder.Schedule.Operation.{Operation, Behaviour}
use data_recorder.Schedule.Queue.{find_by_ref, remove_by_ref, front, pop_front, is_empty}
use data_recorder.Schedule.Queue.Order.{IsOrdered, HasSlot}
use data_recorder.Schedule.Machine.{
  Schedule, waiting, get_state, do_wait, do_busy, start_next, busy_step,
}
use data_recorder.Schedule.Machine.Runs.{busy_step-queue}
use data_recorder.Schedule.Requests.{
  operation, schedule_operation, cancel_operation, do_cancel_current, cancel_queued, do_abort,
}
use data_recorder.Schedule.Requests.Queueing.{schedule-IsOrdered, cancel-IsOrdered}

-- A locked call of a client or of the scheduler's own loop.
pub data Step {B : Type 0} (run : Behaviour B) : Schedule B → Schedule B → Type 0 where
  schedules :
      (s : Schedule B) (op : Operation B)
      → HasSlot op
      → Step run s (schedule_operation s (operation op)).0
  cancels : (s : Schedule B) (r : ℕ) → Step run s (cancel_operation run s r).0
  waits :
      (s : Schedule B) (now : TimeStamp) (next : Schedule B × ℕ)
      → do_wait s now ≡ returns next
      → Step run s next.0
  works :
      (s : Schedule B) (now : TimeStamp) (next : Schedule B × ℕ)
      → do_busy run s now ≡ returns next
      → Step run s next.0
  aborts : (s s' : Schedule B) → do_abort run s ≡ some s' → Step run s s'

pub data Reach {B : Type 0} (run : Behaviour B) : Schedule B → Schedule B → Type 0 where
  here : (s : Schedule B) → Reach run s s
  after : (s t u : Schedule B) → Reach run s t → Step run t u → Reach run s u

module _ {B : Type 0} (run : Behaviour B) where
  pop_front-IsOrdered : (ops : List (Operation B)) → IsOrdered ops → IsOrdered (pop_front ops).1
  unfolding pop_front
  pop_front-IsOrdered [] v = v
  pop_front-IsOrdered (op ∷ rest) v = v.2

  do_wait-queue :
      (s : Schedule B) (now : TimeStamp) (next : Schedule B × ℕ)
      → do_wait s now ≡ returns next
      → (next.0.ops_queue ≡ s.ops_queue) ⊎ (next.0.ops_queue ≡ (pop_front s.ops_queue).1)
  unfolding do_wait start_next
  do_wait-queue s now next e = ground arith

  do_busy-queue :
      (s : Schedule B) (now : TimeStamp) (next : Schedule B × ℕ)
      → do_busy run s now ≡ returns next
      → next.0.ops_queue ≡ s.ops_queue
  unfolding do_busy
  do_busy-queue s now next e = elim (Option-cases s.current_operation) [
    | inl c ↦ absurd (ground (arith, c, e))
    | inr (op, c) ↦
        let same : busy_step run s op now ≡ next = ground (arith, c, e) in
        subst (λ (r : Schedule B × ℕ). r.0.ops_queue ≡ s.ops_queue) same
          (busy_step-queue run s op now)
  ]

  do_abort-queue : (s s' : Schedule B) → do_abort run s ≡ some s' → s'.ops_queue ≡ []
  unfolding do_abort
  do_abort-queue s s' e = ground arith

  Step-IsOrdered : {s t : Schedule B} → Step run s t → IsOrdered s.ops_queue → IsOrdered t.ops_queue
  Step-IsOrdered (schedules s op h) v = schedule-IsOrdered s op h v
  Step-IsOrdered (cancels s r) v = cancel-IsOrdered run s r v
  Step-IsOrdered (waits s now next e) v = elim (do_wait-queue s now next e) [
    | inl q ↦ subst IsOrdered (sym q) v
    | inr q ↦ subst IsOrdered (sym q) (pop_front-IsOrdered s.ops_queue v)
  ]
  Step-IsOrdered (works s now next e) v = subst IsOrdered (sym (do_busy-queue s now next e)) v
  Step-IsOrdered (aborts s s' e) v = subst IsOrdered (sym (do_abort-queue s s' e)) tt

  -- In every interleaving of the calls of `Step`, where the new operations have well-formed
  -- slots, a queue that is in the order of time with its padded slots apart stays so.
  pub Reach-IsOrdered :
      {s t : Schedule B} → Reach run s t → IsOrdered s.ops_queue → IsOrdered t.ops_queue
  Reach-IsOrdered (here s) v = v
  Reach-IsOrdered (after s t u path step) v = Step-IsOrdered step (Reach-IsOrdered path v)

  -- If no operation runs and the queue holds one that agrees to be cancelled, then `getState` returns
  -- waiting, and a `cancelOperation` of it before the `doWait` that follows makes that `doWait`
  -- dereference a null pointer.
  pub cancel-do_wait :
      (s : Schedule B) (op : Operation B) (now : TimeStamp)
      → s.current_operation ≡ none
      → s.ops_queue ≡ op ∷ []
      → (run.do_cancel op.body).1 ≡ true
      → (get_state s ≡ waiting) × (do_wait (cancel_operation run s op.reference).0 now ≡ fatal)
  unfolding cancel_operation cancel_queued do_cancel_current do_wait get_state front is_empty
      find_by_ref remove_by_ref
  cancel-do_wait s op now none_runs one agrees = ground (arith, none_runs, one, agrees)
