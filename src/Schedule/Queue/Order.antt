-- ===== src/Schedule/Queue/Order.antt =====
-- The queue of operations stays in the order of time, with no two padded slots overlapping.
use mathlib.Core.List.{Memᴰ}
use data_recorder.Base.{
  ◌≡◌, ◌↔◌, ◌⊎◌, inl, inr, refl, ap, sym, none, some, List, [], ◌∷◌, ◌++◌, All, arith,
  Ordering-cases,
}
use data_recorder.Time.{TimeSlot, compare_slots}
use data_recorder.Time.Slots.{IsSlot, EndsBefore, compare_slots_lem}
use data_recorder.Schedule.Operation.{Operation}
use data_recorder.Schedule.Queue.{insert}

-- One of the two slots ends before the other starts.
abbrev pub Apart : TimeSlot → TimeSlot → Type 0
Apart a b = EndsBefore a b ⊎ EndsBefore b a

EndsBefore-trans : (a b c : TimeSlot) → EndsBefore a b → EndsBefore b c → EndsBefore a c
EndsBefore-trans a b c h k = (h.0, omega (arith, h.1, k.1))

module _ {B : Type 0} where
  abbrev pub Precedes : Operation B → Operation B → Type 0
  Precedes a b = EndsBefore a.ts_padded b.ts_padded

  abbrev pub HasSlot : Operation B → Type 0
  HasSlot op = IsSlot op.ts_padded

  -- Each operation has a well-formed slot, which ends before those of all later operations start.
  abbrev pub IsOrdered : List (Operation B) → Type 0
  IsOrdered [] = Unit {0}
  IsOrdered (op ∷ rest) = HasSlot op × All (Precedes op) rest × IsOrdered rest

  All-Precedes :
      (a b : Operation B) (ops : List (Operation B))
      → Precedes a b
      → All (Precedes b) ops
      → All (Precedes a) ops
  All-Precedes a b [] h k = tt
  All-Precedes a b (op ∷ rest) h k =
      (EndsBefore-trans a.ts_padded b.ts_padded op.ts_padded h k.0, All-Precedes a b rest h k.1)

  All-insert :
      (P : Operation B → Type 0) (op : Operation B) (ops : List (Operation B))
      → P op
      → All P ops
      → All P (insert op ops).1
  unfolding insert
  All-insert P op [] h k = (h, tt)
  All-insert P op (next ∷ rest) h k =
      elim (Ordering-cases (compare_slots op.ts_padded next.ts_padded)) [
        | inl e ↦ rw (e, insert) (h, k)
        | inr (inl e) ↦ rw (e, insert) k
        | inr (inr e) ↦ rw (e, insert) (k.0, All-insert P op rest h k.1)
      ]

  -- Inserting keeps the queue ordered, whether or not the operation is accepted.
  pub insert-IsOrdered :
      (op : Operation B) (ops : List (Operation B))
      → HasSlot op
      → IsOrdered ops
      → IsOrdered (insert op ops).1
  unfolding insert
  insert-IsOrdered op [] h v = (h, tt, tt)
  insert-IsOrdered op (next ∷ rest) h v =
      let (before, after) = compare_slots_lem op.ts_padded next.ts_padded h v.0 in
      elim (Ordering-cases (compare_slots op.ts_padded next.ts_padded)) [
        | inl e ↦ rw (e, insert) (h, (before.0 e, All-Precedes op next rest (before.0 e) v.1), v)
        | inr (inl e) ↦ rw (e, insert) v
        | inr (inr e) ↦
            rw (e, insert)
              (
                v.0,
                All-insert (Precedes next) op rest (after.0 e) v.1,
                insert-IsOrdered op rest h v.2,
              )
      ]

  abbrev pub Clear : Operation B → List (Operation B) → Type 0
  Clear op ops = All (λ (x : Operation B). Apart op.ts_padded x.ts_padded) ops

  All-Clear :
      (op next : Operation B) (ops : List (Operation B))
      → Precedes op next
      → All (Precedes next) ops
      → Clear op ops
  All-Clear op next [] h k = tt
  All-Clear op next (x ∷ ops) h k = (
    inl (EndsBefore-trans op.ts_padded next.ts_padded x.ts_padded h k.0),
    All-Clear op next ops h k.1,
  )

  -- For an operation with a well-formed slot and an ordered queue: the operation is accepted
  -- exactly if its padded slot is apart from that of every queued operation.
  pub insert-none_iff :
      (op : Operation B) (ops : List (Operation B))
      → HasSlot op
      → IsOrdered ops
      → ((insert op ops).0 ≡ none) ↔ Clear op ops
  unfolding insert
  insert-none_iff op [] h v = (λ _. tt, λ _. refl)
  insert-none_iff op (next ∷ rest) h v =
      let (before, after) = compare_slots_lem op.ts_padded next.ts_padded h v.0 in
      let ih = insert-none_iff op rest h v.2 in
      elim (Ordering-cases (compare_slots op.ts_padded next.ts_padded)) [
        | inl e ↦
            rw (e, insert)
              (λ _. (inl (before.0 e), All-Clear op next rest (before.0 e) v.1), λ _. refl)
        | inr (inl e) ↦ rw (e, insert) (λ p. cc, λ c. absurd (ground (arith, c.0, before, after)))
        | inr (inr e) ↦ rw (e, insert) (λ p. (inr (after.0 e), ih.0 p), λ c. ih.1 c.1)
      ]

  -- After an insertion that was accepted the queue is as before, with the operation between a
  -- first and a last part of it.
  pub insert_content :
      (op : Operation B) (ops : List (Operation B))
      → (insert op ops).0 ≡ none
      → (before after : List (Operation B)) × (ops ≡ before ++ after)
        × ((insert op ops).1 ≡ before ++ op ∷ after)
  unfolding insert
  insert_content op [] h = ([], [], refl, refl)
  insert_content op (next ∷ rest) h =
      elim (Ordering-cases (compare_slots op.ts_padded next.ts_padded)) [
        | inl e ↦ ([], next ∷ rest, refl, rw (e, insert))
        | inr (inl e) ↦ absurd (ground arith)
        | inr (inr e) ↦
            let (before, after, p, q) = insert_content op rest (rw (e, insert) at h) in
            (next ∷ before, after, ap (λ l. next ∷ l) p, rw (e, insert) (ap (λ l. next ∷ l) q))
      ]

  -- For an operation with a well-formed slot and an ordered queue: a refused insertion leaves
  -- the queue as it was, and returns a queued operation whose padded slot is not apart from the
  -- new one's.
  pub insert_conflict :
      (op c : Operation B) (ops : List (Operation B))
      → HasSlot op
      → IsOrdered ops
      → (insert op ops).0 ≡ some c
      → ((insert op ops).1 ≡ ops) × Memᴰ c ops × ¬ Apart op.ts_padded c.ts_padded
  unfolding insert
  insert_conflict op c [] h v p = absurd (cc)
  insert_conflict op c (next ∷ rest) h v p =
      let (before, after) = compare_slots_lem op.ts_padded next.ts_padded h v.0 in
      elim (Ordering-cases (compare_slots op.ts_padded next.ts_padded)) [
        | inl e ↦ absurd (ground arith)
        | inr (inl e) ↦
            let q : some next ≡ some c = rw (e, insert) at p in
            let same : next ≡ c = ground arith in
            rw (e, insert)
              (refl, Memᴰ.head (sym same), rw (← same) (λ a. ground (arith, a, before, after)))
        | inr (inr e) ↦
            let (same, mem, hit) = insert_conflict op c rest h v.2 (rw (e, insert) at p) in
            rw (e, insert) (ap (λ l. next ∷ l) same, Memᴰ.tail mem, hit)
      ]
