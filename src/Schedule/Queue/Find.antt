-- ===== src/Schedule/Queue/Find.antt =====
-- Searching the queue by index, by reference and by slot, and taking operations out of it.

use data_recorder.Base.{
  ℕ, zero, suc, ◌+◌, ◌≡◌, ◌≢◌, ◌↔◌, inl, inr, refl, ap, false, none, some, List, [], ◌∷◌, ◌++◌,
  ◌==◌, All, ◌∙◌, arith, Bool-cases, get_elem?,
}
use data_recorder.Time.{TimeSlot, overlaps}
use data_recorder.Time.Slots.{IsSlot, overlaps_iff}
use data_recorder.Schedule.Operation.{Operation}
use data_recorder.Schedule.Queue.{
  insert, find_conflict, find_from, find_by_index, remove_by_ref, find_by_ref,
}
use data_recorder.Schedule.Queue.Order.{IsOrdered, Precedes, Apart, HasSlot, Clear, insert-none_iff}

Apart-of_not-overlaps : (a b : TimeSlot) → IsSlot a → IsSlot b → overlaps a b ≡ false → Apart a b
Apart-of_not-overlaps a b va vb h = ground (arith, overlaps_iff a b va vb)

module _ {B : Type 0} where
  find_from-get_elem? :
      (cur i : ℕ) (ops : List (Operation B)) → find_from cur (cur + i) ops ≡ get_elem? ops i
  unfolding find_from
  find_from-get_elem? cur i [] = refl
  find_from-get_elem? cur zero (op ∷ rest) = ground arith
  find_from-get_elem? cur (suc i) (op ∷ rest) = ground (
    arith,
    find_from-get_elem? (cur + 1) i rest,
    ap (λ n. find_from (cur + 1) n rest) (shift cur i),
  )
    where
      shift : (cur i : ℕ) → cur + 1 + i ≡ cur + suc i
      shift cur i = omega arith

  -- `find_by_index` reads the queue at the index, from 0.
  pub find_by_index_lem : (i : ℕ) (ops : List (Operation B)) → find_by_index i ops ≡ get_elem? ops i
  unfolding find_by_index
  find_by_index_lem i ops =
      ap (λ n. find_from 0 n ops) (zero-add-sym i) ∙ find_from-get_elem? 0 i ops
    where
      zero-add-sym : (i : ℕ) → i ≡ 0 + i
      zero-add-sym i = omega arith

  All-remove_by_ref :
      (P : Operation B → Type 0) (r : ℕ) (ops : List (Operation B))
      → All P ops
      → All P (remove_by_ref r ops)
  unfolding remove_by_ref
  All-remove_by_ref P r [] h = tt
  All-remove_by_ref P r (op ∷ rest) h = elim (Bool-cases (op.reference == r)) [
    | inl e ↦ rw e h.1
    | inr e ↦ rw e (h.0, All-remove_by_ref P r rest h.1)
  ]

  pub remove_by_ref-IsOrdered :
      (r : ℕ) (ops : List (Operation B)) → IsOrdered ops → IsOrdered (remove_by_ref r ops)
  unfolding remove_by_ref
  remove_by_ref-IsOrdered r [] v = tt
  remove_by_ref-IsOrdered r (op ∷ rest) v = elim (Bool-cases (op.reference == r)) [
    | inl e ↦ rw e v.2
    | inr e ↦
        rw e (v.0, All-remove_by_ref (Precedes op) r rest v.1, remove_by_ref-IsOrdered r rest v.2)
  ]

  -- The operation is the first of the queue with the reference, and the others are left.
  pub record TakesOut (r : ℕ) (ops left : List (Operation B)) (op : Operation B) : Type 0 where
    pub before : List (Operation B)
    pub after : List (Operation B)
    pub is_ref : op.reference ≡ r
    pub whole : ops ≡ before ++ op ∷ after
    pub others : left ≡ before ++ after
    pub is_first : All (λ (x : Operation B). x.reference ≢ r) before

  TakesOut-cons :
      (r : ℕ) (ops left : List (Operation B)) (op next : Operation B)
      → next.reference ≢ r
      → TakesOut r ops left op
      → TakesOut r (next ∷ ops) (next ∷ left) op
  TakesOut-cons r ops left op next ne t = record {
    before = next ∷ t.before;
    after = t.after;
    is_ref = t.is_ref;
    whole = ap (λ l. next ∷ l) t.whole;
    others = ap (λ l. next ∷ l) t.others;
    is_first = (ne, t.is_first);
  }

  -- `remove_by_ref` takes out the first operation with the reference, the one that `find_by_ref`
  -- finds, and nothing else; if `find_by_ref` finds none, it changes nothing.
  pub remove_by_ref_lem :
      (r : ℕ) (ops : List (Operation B))
      → ((op : Operation B) → find_by_ref r ops ≡ some op → TakesOut r ops (remove_by_ref r ops) op)
        × (find_by_ref r ops ≡ none → remove_by_ref r ops ≡ ops)
  unfolding remove_by_ref find_by_ref
  remove_by_ref_lem r [] = (λ op h. absurd (cc), λ _. refl)
  remove_by_ref_lem r (op ∷ rest) = elim (Bool-cases (op.reference == r)) [
    | inl e ↦ rw e (
      λ x h.
          let same : op ≡ x = ground arith in
          rw (← same) (record {
            before = [];
            after = rest;
            is_ref = ground arith;
            whole = refl;
            others = refl;
            is_first = tt;
          }),
      λ h. absurd (cc),
    )
    | inr e ↦
        let (found, missing) = remove_by_ref_lem r rest in
        rw e (
          λ x h. TakesOut-cons r rest (remove_by_ref r rest) x op (ground arith) (found x h),
          λ h. ap (λ l. op ∷ l) (missing h),
        )
  ]

  -- `find_conflict` finds no operation exactly if the slot overlaps none of the queue's.
  pub find_conflict-none_iff :
      (ts : TimeSlot) (ops : List (Operation B))
      → (find_conflict ts ops ≡ none)
        ↔ All (λ (x : Operation B). overlaps ts x.ts_padded ≡ false) ops
  unfolding find_conflict
  find_conflict-none_iff ts [] = (λ _. tt, λ _. refl)
  find_conflict-none_iff ts (op ∷ rest) =
      let ih = find_conflict-none_iff ts rest in
      elim (Bool-cases (overlaps ts op.ts_padded)) [
        | inl e ↦ rw e (λ h. absurd (cc), λ h. absurd (ground (arith, h.0)))
        | inr e ↦ rw e (λ h. (refl, ih.0 h), λ h. ih.1 h.1)
      ]

  Clear-of_no_overlap :
      (op : Operation B) (ops : List (Operation B))
      → HasSlot op
      → IsOrdered ops
      → All (λ (x : Operation B). overlaps op.ts_padded x.ts_padded ≡ false) ops
      → Clear op ops
  Clear-of_no_overlap op [] h v o = tt
  Clear-of_no_overlap op (x ∷ ops) h v o = (
    Apart-of_not-overlaps op.ts_padded x.ts_padded h v.0 o.0,
    Clear-of_no_overlap op ops h v.2 o.1,
  )

  -- For an operation with a well-formed slot and an ordered queue: if `find_conflict` finds
  -- nothing in the way of the padded slot, `insert` accepts the operation.
  pub insert-find_conflict :
      (op : Operation B) (ops : List (Operation B))
      → HasSlot op
      → IsOrdered ops
      → find_conflict op.ts_padded ops ≡ none
      → (insert op ops).0 ≡ none
  insert-find_conflict op ops h v free =
      (insert-none_iff op ops h v).1
        (Clear-of_no_overlap op ops h v ((find_conflict-none_iff op.ts_padded ops).0 free))
