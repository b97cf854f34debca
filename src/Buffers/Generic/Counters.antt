-- ===== src/Buffers/Generic/Counters.antt =====
-- The indices of a `GenericBuffer` stand for counters that only grow: how many objects the producer
-- has put in, and how many each stage has passed on.
use native.Mathlib.Decide.{dec_lt}
use data_recorder.Base.{
  ℕ, zero, suc, ◌+◌, ◌-◌, ◌*◌, ◌%◌, ◌^◌, ◌≤◌, ◌<◌, ◌≡◌, arith, true, none, some, if◌then◌else◌,
  ◌==◌, ltb, returns,
}
use data_recorder.Buffers.Ring.{rq_used, rq_free, rq_used-counters, rq_free-counters}
use data_recorder.Buffers.Generic.{
  GenericBuffer, slot, is_inside, next_in, next_stage, used_in_stage, used,
}

-- `count 0` objects were put in, and stage `k` has passed on `count (suc k)` of them.
pub record Counts (b : GenericBuffer) (count : ℕ → ℕ) : Type 0 where
  pub is_valid : b.valid ≡ true
  pub has_size : 0 < b.obj_size
  pub has_slots : 1 < b.obj_count
  pub has_stages : 0 < b.num_stages
  pub small : b.obj_count < 2 ^ 63
  pub fits : b.obj_size * b.obj_count < 2 ^ 64
  pub allocated : b.buf_size ≡ b.obj_size * b.obj_count
  pub indices : (i : ℕ) → i ≤ b.num_stages → b.stage_indices i ≡ count i % b.obj_count
  pub ordered : (i : ℕ) → i < b.num_stages → count (suc i) ≤ count i
  pub bounded : count 0 < count b.num_stages + b.obj_count

-- A later stage has never passed on more than an earlier one.
pub count_mono :
    (count : ℕ → ℕ) (n i j : ℕ)
    → ((k : ℕ) → k < n → count (suc k) ≤ count k)
    → i ≤ j
    → j ≤ n
    → count j ≤ count i
count_mono count n i zero o h h' = let e : i ≡ 0 = omega arith in rw e (omega arith)
count_mono count n i (suc j) o h h' = elim (dec_lt j i) [
  | yes p ↦ let e : i ≡ suc j = omega arith in rw e (omega arith)
  | no p ↦ omega (arith, o j h', count_mono count n i j o (omega arith) (omega arith))
]

-- The counter `k` moves on by one.
abbrev pub bump : (ℕ → ℕ) → ℕ → ℕ → ℕ
bump count k j = if j == k then count j + 1 else count j

module _ {b : GenericBuffer} {count : ℕ → ℕ} (c : Counts b count) where
  -- The objects of any one stage, and of all stages together, fit the ring.
  pub stage_bounds :
      (k : ℕ)
      → k < b.num_stages
      → (count (suc k) ≤ count k) × (count k < count (suc k) + b.obj_count)
  stage_bounds k h = (
    c.ordered k h,
    omega (
      arith,
      c.bounded,
      count_mono count b.num_stages 0 k c.ordered (omega arith) (omega arith),
      count_mono count b.num_stages (suc k) b.num_stages c.ordered h (omega arith),
    ),
  )

  pub used_at :
      (k : ℕ)
      → k < b.num_stages
      → rq_used (b.stage_indices k) (b.stage_indices (suc k)) b.obj_count ≡ count k - count (suc k)
  used_at k h =
      rw (c.indices k (omega arith), c.indices (suc k) h)
        (let (lo, hi) = stage_bounds k h in rq_used-counters _ _ _ lo hi c.small)

  all_ordered : count b.num_stages ≤ count 0
  all_ordered = count_mono count b.num_stages 0 b.num_stages c.ordered (omega arith) (omega arith)

  pub free_now :
      rq_free (b.stage_indices 0) (b.stage_indices b.num_stages) b.obj_count
      ≡ b.obj_count - 1 - (count 0 - count b.num_stages)
  free_now =
      rw (c.indices 0 (omega arith), c.indices b.num_stages (omega arith))
        (rq_free-counters _ _ _ all_ordered c.bounded c.small)

  -- `used` counts the objects put in and not yet passed on by the last stage.
  pub used_lem : used b ≡ count 0 - count b.num_stages
  unfolding used
  used_lem =
      rw (c.is_valid, c.indices 0 (omega arith), c.indices b.num_stages (omega arith))
        (rq_used-counters _ _ _ all_ordered c.bounded c.small)

  -- `usedInStage` counts the objects that wait at one stage.
  pub used_in_stage_lem :
      (k : ℕ) → k < b.num_stages → used_in_stage b k ≡ returns (count k - count (suc k))
  unfolding used_in_stage
  used_in_stage_lem k h = ground (arith, c.is_valid, used_at k h)

  -- `nextIn` offers the slot of the next object exactly while fewer than `obj_count - 1` objects
  -- are in the ring.
  pub next_in_lem : next_in b ≡ (
      if ltb (count 0 + 1) (count b.num_stages + b.obj_count)
      then some (slot b (count 0 % b.obj_count))
      else none)
  unfolding next_in
  next_in_lem = ground (arith, c.is_valid, free_now, all_ordered, c.bounded, c.indices 0)

  -- `nextStage` offers the oldest object that waits at the stage, exactly if one waits.
  pub next_stage_lem :
      (k : ℕ)
      → k < b.num_stages
      → next_stage b k
        ≡ returns (
            if ltb (count (suc k)) (count k)
            then some (slot b (count (suc k) % b.obj_count))
            else none)
  unfolding next_stage
  next_stage_lem k h = ground (arith, c.is_valid, used_at k h, c.ordered k h, c.indices (suc k) h)

  -- The product of a slot does not wrap.
  pub slot_lem : (i : ℕ) → i < b.obj_count → slot b i ≡ b.obj_size * i
  slot_lem i h =
      let below : b.obj_size * i ≤ b.obj_size * b.obj_count = grind (arith, h) in
      omega (arith, below, c.fits)

  -- Each slot lies in the memory of `buf`.
  pub slot-inside : (i : ℕ) → i < b.obj_count → is_inside b (slot b i) ≡ true
  unfolding is_inside
  slot-inside i h =
      let next : b.obj_size * i + b.obj_size ≤ b.obj_size * b.obj_count = grind (arith, h) in
      ground (arith, slot_lem i h, next, c.allocated)
