-- ===== src/Buffers/Generic/Steps.antt =====
-- What the operations that move a `GenericBuffer`'s indices do to its counters.
use native.Mathlib.Nat.{mod-add-mod, mod-eq_of_lt, mod-lt}
use data_recorder.Base.{
  ℕ, zero, suc, Bool, ◌+◌, ◌*◌, ◌%◌, ◌^◌, ◌≤◌, ◌<◌, ◌≡◌, ◌≢◌, refl, arith, true, false, none, some,
  if◌then◌else◌, ltb, word, returns, fatal,
}
use data_recorder.Buffers.Ring.{rq_next, rq_next-counter}
use data_recorder.Buffers.Generic.{
  GenericBuffer, set, slot, new, unallocated, reset, next_in, done_in, next_stage, peek_stage,
  done_stage, adv_stage, validity_check, indices_in_range,
}
use data_recorder.Buffers.Generic.Counters.{
  Counts, bump, stage_bounds, next_in_lem, next_stage_lem, used_at,
}

-- A constructor call whose sizes do not wrap, and whose requests are met, starts with all counters
-- at 0.
pub new-Counts :
    (malloc : ℕ → Bool) (size count stages : ℕ)
    → 0 < size
    → 0 < count
    → count + 1 < 2 ^ 63
    → size * (count + 1) < 2 ^ 64
    → 0 < stages
    → (stages + 1) * 8 < 2 ^ 64
    → malloc (size * (count + 1)) ≡ true
    → malloc ((stages + 1) * 8) ≡ true
    → (b : GenericBuffer) × (new malloc size count stages ≡ returns b)
      × Counts b (λ _. 0)
      × (b.num_stages ≡ stages)
      × (b.obj_count ≡ count + 1)
unfolding new unallocated
new-Counts malloc size count stages h1 h2 h3 fits h4 few buf indices =
    let slots : word (count + 1) ≡ count + 1 = omega (arith, h3) in
    let bytes : word (size * (count + 1)) ≡ size * (count + 1) = omega (arith, fits) in
    let stages' : word (stages + 1) ≡ stages + 1 = omega (arith, few) in
    let indices' : word ((stages + 1) * 8) ≡ (stages + 1) * 8 = omega (arith, few) in
    let b : GenericBuffer = record (unallocated size count stages) {
      valid = true;
      buf_size = size * (count + 1);
    } in
    (
      b,
      ground (arith, h1, h2, h4, slots, bytes, stages', indices', buf, indices),
      record {
        is_valid = refl;
        has_size = h1;
        has_slots = omega (arith, slots, h2);
        has_stages = h4;
        small = omega (arith, slots, h3);
        fits = rw slots fits;
        allocated = rw slots refl;
        indices = λ i h. omega arith;
        ordered = λ i h. omega arith;
        bounded = omega (arith, slots);
      },
      refl,
      slots,
    )

pub reset-Counts : {b : GenericBuffer} {count : ℕ → ℕ} → Counts b count → Counts (reset b) (λ _. 0)
unfolding reset
reset-Counts {b} c = rw c.is_valid (record {
  is_valid = refl;
  has_size = c.has_size;
  has_slots = c.has_slots;
  has_stages = c.has_stages;
  small = c.small;
  fits = c.fits;
  allocated = c.allocated;
  indices = λ i h. omega arith;
  ordered = λ i h. omega arith;
  bounded = omega (arith, c.has_slots);
})

-- The buffer with its index `k` one slot further.
abbrev pub advanced : GenericBuffer → ℕ → GenericBuffer
advanced b k = record b {
  stage_indices = set b.stage_indices k (word (b.stage_indices k + 1) % b.obj_count);
}

module _ {b : GenericBuffer} {count : ℕ → ℕ} (c : Counts b count) where
  index_step :
      (k : ℕ)
      → k ≤ b.num_stages
      → word (b.stage_indices k + 1) % b.obj_count ≡ (count k + 1) % b.obj_count
  unfolding rq_next
  index_step k h =
      rw (c.indices k h)
        (rq_next-counter (count k) b.obj_count (omega (arith, c.has_slots)) c.small)

  -- There is room for the counter `k` to move on.
  abbrev Room : ℕ → Type 0
  Room zero = count 0 + 1 < count b.num_stages + b.obj_count
  Room (suc j) = count (suc j) < count j

  ordered_step :
      (k i : ℕ)
      → k ≤ b.num_stages
      → Room k
      → i < b.num_stages
      → bump count k (suc i) ≤ bump count k i
  ordered_step zero i h r h' = ground (arith, c.ordered i h')
  ordered_step (suc j) i h r h' = ground (arith, c.ordered i h')

  bounded_step : (k : ℕ) → Room k → bump count k 0 < bump count k b.num_stages + b.obj_count
  bounded_step zero r = ground (arith, c.has_stages)
  bounded_step (suc j) r = ground (arith, c.bounded)

  step-Counts : (k : ℕ) → k ≤ b.num_stages → Room k → Counts (advanced b k) (bump count k)
  step-Counts k h r = record {
    is_valid = c.is_valid;
    has_size = c.has_size;
    has_slots = c.has_slots;
    has_stages = c.has_stages;
    small = c.small;
    fits = c.fits;
    allocated = c.allocated;
    indices = λ i h'. ground (arith, c.indices i h', index_step k h);
    ordered = λ i h'. ordered_step k i h r h';
    bounded = bounded_step k r;
  }

  -- `doneIn` of the slot that `nextIn` offers puts one object in.
  pub done_in_lem :
      (ptr : ℕ)
      → next_in b ≡ some ptr
      → (done_in b ptr ≡ returns (advanced b 0)) × Counts (advanced b 0) (bump count 0)
  unfolding done_in
  done_in_lem ptr h = (
    ground (arith, c.is_valid, next_in_lem c, c.indices 0),
    step-Counts 0 (omega arith) (ground (arith, next_in_lem c)),
  )

  -- `doneIn` of any other pointer ends the program.
  pub done_in_other : (ptr : ℕ) → ptr ≢ slot b (count 0 % b.obj_count) → done_in b ptr ≡ fatal
  unfolding done_in
  done_in_other ptr h = ground (arith, c.is_valid, c.indices 0 (omega arith))

  -- `doneStage` of the slot that `nextStage` offers passes one object on to the next stage.
  pub done_stage_lem :
      (k ptr : ℕ)
      → k < b.num_stages
      → next_stage b k ≡ returns (some ptr)
      → (done_stage b k ptr ≡ returns (advanced b (suc k)))
        × Counts (advanced b (suc k)) (bump count (suc k))
  unfolding done_stage
  done_stage_lem k ptr h e = (
    ground (arith, c.is_valid, next_stage_lem c k h, c.indices (suc k) h),
    step-Counts (suc k) h (ground (arith, next_stage_lem c k h)),
  )

  -- `advStage` passes one object on and returns true exactly if one waits at the stage.
  pub adv_stage_lem :
      (k : ℕ)
      → k < b.num_stages
      → (count (suc k) < count k
          → (adv_stage b k ≡ returns (advanced b (suc k), true))
            × Counts (advanced b (suc k)) (bump count (suc k)))
        × (count (suc k) ≡ count k → adv_stage b k ≡ returns (b, false))
  unfolding adv_stage done_stage
  adv_stage_lem k h = (
    λ r. (
      ground (arith, c.is_valid, next_stage_lem c k h, c.indices (suc k) h),
      step-Counts (suc k) h r,
    ),
    λ e. ground (arith, c.is_valid, next_stage_lem c k h),
  )

  peek_index :
      (k n : ℕ)
      → k ≤ b.num_stages
      → n < b.obj_count
      → word (b.stage_indices k + n) % b.obj_count ≡ (count k + n) % b.obj_count
  peek_index k n h l = rw (c.indices k h) (
      rw
        (mod-eq_of_lt {n = count k % b.obj_count + n} {m = 2 ^ 64}
          (omega (arith, c.small, mod-lt (count k) {m = b.obj_count} (omega arith))))
        (mod-add-mod (count k) b.obj_count n))

  -- `peekStage` looks ahead over exactly the objects that wait at the stage, in order.
  pub peek_stage_lem :
      (k n : ℕ)
      → k < b.num_stages
      → peek_stage b k n
        ≡ returns (
            if ltb (count (suc k) + n) (count k)
            then some (slot b ((count (suc k) + n) % b.obj_count))
            else none)
  unfolding peek_stage
  peek_stage_lem k n h =
      ground (arith, c.is_valid, used_at c k h, stage_bounds c k h, peek_index (suc k) n h)

  in_range : (n : ℕ) → n ≤ suc b.num_stages → indices_in_range b n ≡ true
  unfolding indices_in_range
  in_range zero h = refl
  in_range (suc n) h = ground (
    arith,
    in_range n (omega arith),
    c.indices n (omega arith),
    mod-lt (count n) {m = b.obj_count} (omega (arith, c.has_slots)),
  )

  -- `validitycheck` passes.
  pub validity_check_lem : validity_check b ≡ true
  unfolding validity_check
  validity_check_lem = ground (
    arith,
    c.is_valid,
    c.has_size,
    c.has_slots,
    c.has_stages,
    in_range (suc b.num_stages) (omega arith),
  )
