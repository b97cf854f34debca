-- ===== src/Buffers/Generic.antt =====
-- DROS2/Buffers/GenericBuffer.h and GenericBuffer.cpp: a ring of `obj_count` slots with one index
-- for the producer and one for each stage of consumers.
-- A pointer into `buf` is its offset in bytes (`PTR_TO`), a null pointer is `none`; `exit` by
-- `FATAL` is `fatal`. Logging is left out, and `print`, which only logs.
pub mod Counters
pub mod Steps
pub mod Pipeline
use data_recorder.Base.{
  ℕ, zero, suc, ◌+◌, ◌-◌, ◌*◌, ◌%◌, Bool, true, false, ◌||◌, not, Option, none, some, ltb, leb,
  ◌==◌, if◌then◌else◌, word, Exit, returns, fatal, ◌>>=◌,
}
use data_recorder.Buffers.Ring.{rq_used, rq_free}

-- `buf_size` is the number of bytes that `malloc` gave for `buf`.
pub record GenericBuffer : Type 0 where
  pub valid : Bool
  pub obj_size : ℕ
  pub obj_count : ℕ
  pub num_stages : ℕ
  pub stage_indices : ℕ → ℕ
  pub buf_size : ℕ

-- A write to one cell of an array.
abbrev pub set : (ℕ → ℕ) → ℕ → ℕ → ℕ → ℕ
set f i v j = if j == i then v else f j

-- `PTR_TO`, from the start of `buf`; the product of two `size_t` wraps.
abbrev pub slot : GenericBuffer → ℕ → ℕ
slot b i = word (b.obj_size * i)

-- Whether the object at the offset lies in the memory of `buf`.
unfoldable pub is_inside : GenericBuffer → ℕ → Bool
is_inside b ptr = leb (ptr + b.obj_size) b.buf_size

-- The members that the constructor's list sets.
unfoldable pub unallocated : ℕ → ℕ → ℕ → GenericBuffer
unallocated size count stages = record {
  valid = false;
  obj_size = size;
  obj_count = word (count + 1);
  num_stages = stages;
  stage_indices = λ _. 0;
  buf_size = 0;
}

-- The constructor. `malloc` says which requests are met. If the number of bytes for the indices
-- wraps, the loop writes past them: `fatal`.
unfoldable pub new : (ℕ → Bool) → ℕ → ℕ → ℕ → Exit GenericBuffer
new malloc size count stages =
    let b = unallocated size count stages in
    let buf_size = word (size * word (count + 1)) in
    let indices_size = word (word (stages + 1) * 8) in
    if size == 0 || (count == 0 || stages == 0)
    then returns b
    else if not (malloc buf_size)
    then returns b
    else if not (malloc indices_size)
    then returns b
    else if ltb indices_size ((stages + 1) * 8)
    then fatal
    else returns (record b { valid = true; buf_size = buf_size })

unfoldable pub reset : GenericBuffer → GenericBuffer
reset b = if b.valid then record b { stage_indices = λ _. 0 } else b

unfoldable pub next_in : GenericBuffer → Option ℕ
next_in b =
    let in_ = b.stage_indices 0 in
    let out = b.stage_indices b.num_stages in
    let avail = rq_free in_ out b.obj_count in
    if not b.valid then none else if avail == 0 then none else some (slot b in_)

unfoldable pub done_in : GenericBuffer → ℕ → Exit GenericBuffer
done_in b ptr =
    let in_ = b.stage_indices 0 in
    let after = set b.stage_indices 0 (word (in_ + 1) % b.obj_count) in
    if not b.valid
    then returns b
    else if ptr == slot b in_
    then returns (record b { stage_indices = after })
    else fatal

unfoldable pub next_stage : GenericBuffer → ℕ → Exit (Option ℕ)
next_stage b stage =
    let s_in = b.stage_indices stage in
    let s_out = b.stage_indices (suc stage) in
    if leb b.num_stages stage
    then fatal
    else if not b.valid
    then returns none
    else if rq_used s_in s_out b.obj_count == 0
    then returns none
    else returns (some (slot b s_out))

unfoldable pub next_out : GenericBuffer → Exit (Option ℕ)
next_out b = if not b.valid then returns none else next_stage b (b.num_stages - 1)

unfoldable pub peek_stage : GenericBuffer → ℕ → ℕ → Exit (Option ℕ)
peek_stage b stage peek_ahead =
    let s_in = b.stage_indices stage in
    let s_out = b.stage_indices (suc stage) in
    if leb b.num_stages stage
    then fatal
    else if not b.valid
    then returns none
    else if leb (rq_used s_in s_out b.obj_count) peek_ahead
    then returns none
    else returns (some (slot b (word (s_out + peek_ahead) % b.obj_count)))

-- A pointer to any other object is logged and ignored.
unfoldable pub done_stage : GenericBuffer → ℕ → ℕ → Exit GenericBuffer
done_stage b stage ptr =
    let s_out = b.stage_indices (suc stage) in
    let after = set b.stage_indices (suc stage) (word (s_out + 1) % b.obj_count) in
    if leb b.num_stages stage
    then fatal
    else if not b.valid
    then returns b
    else if ptr == slot b s_out
    then returns (record b { stage_indices = after })
    else returns b

unfoldable pub done_out : GenericBuffer → ℕ → Exit GenericBuffer
done_out b ptr = if not b.valid then returns b else done_stage b (b.num_stages - 1) ptr

-- The new buffer and the result.
unfoldable pub adv_stage : GenericBuffer → ℕ → Exit (GenericBuffer × Bool)
adv_stage b stage =
    if leb b.num_stages stage then fatal else if not b.valid then returns (b, false) else do
      tmp ← next_stage b stage
      elim tmp [
        | none ↦ returns (b, false)
        | some ptr ↦ done_stage b stage ptr >>= λ b'. returns (b', true)
      ]

unfoldable pub used_in_stage : GenericBuffer → ℕ → Exit ℕ
used_in_stage b stage =
    if leb b.num_stages stage
    then fatal
    else if not b.valid
    then returns 0
    else returns (rq_used (b.stage_indices stage) (b.stage_indices (suc stage)) b.obj_count)

unfoldable pub used : GenericBuffer → ℕ
used b =
    if not b.valid
    then 0
    else rq_used (b.stage_indices 0) (b.stage_indices b.num_stages) b.obj_count

unfoldable pub size : GenericBuffer → ℕ
size b = if not b.valid then 0 else b.obj_count

-- The loop of `validitycheck`, over the indices below the given one.
pub indices_in_range : GenericBuffer → ℕ → Bool
indices_in_range b zero = true
indices_in_range b (suc i) =
    let rest = indices_in_range b i in if leb b.obj_count (b.stage_indices i) then false else rest

-- `true` if `validitycheck` returns. The pointers are not null in a valid buffer.
unfoldable pub validity_check : GenericBuffer → Bool
unfolding indices_in_range
validity_check b =
    if not b.valid
    then false
    else if b.num_stages == 0 || (b.obj_count == 0 || b.obj_size == 0)
    then false
    else indices_in_range b (suc b.num_stages)
