-- ===== src/Buffers/Simple.antt =====
-- DROS2/Buffers/SimpleRingBuffer.cpp: the byte ring with an overflow area behind it. A pointer into the
-- buffer is its offset, `none` if null; `memory` is what the bytes hold. `FATAL` is `fatal`.
pub mod Bytes
use data_recorder.Base.{
  ℕ, ◌+◌, ◌-◌, ◌%◌, Bool, true, false, Option, none, some, ◌==◌, leb, ltb, if◌then◌else◌, not, Exit,
  returns, fatal, word, sub_word,
}
use data_recorder.Buffers.Ring.{rq_used}

pub record SimpleRingBuffer : Type 0 where
  pub memory : ℕ → ℕ
  pub input : ℕ
  pub output : ℕ
  pub size : ℕ
  pub overflow : ℕ
  pub alloc_size : ℕ
  pub producer_done : Bool
  pub valid : Bool

-- The constructor; the memory's contents and whether `malloc` succeeds are arguments.
unfoldable pub simple_ring_buffer : (ℕ → ℕ) → Bool → ℕ → ℕ → SimpleRingBuffer
simple_ring_buffer memory allocated size overflow = record {
  memory = memory;
  input = 0;
  output = 0;
  size = size;
  overflow = overflow;
  alloc_size = word (size + overflow);
  producer_done = false;
  valid = allocated;
}

-- `memcpy` of `n` bytes between two offsets.
unfoldable pub memcpy : ℕ → ℕ → ℕ → (ℕ → ℕ) → ℕ → ℕ
memcpy dst src n memory k =
    if leb dst k then (if ltb k (dst + n) then memory (src + (k - dst)) else memory k) else memory k

unfoldable pub next_in : SimpleRingBuffer → ℕ → Exit (Option ℕ)
next_in s sz =
    if not s.valid
    then returns none
    else if leb s.size (word (rq_used s.input s.output s.size + sz))
    then returns none
    else if ltb s.alloc_size (word (s.input + sz))
    then fatal
    else returns (some s.input)

unfoldable pub done_in : SimpleRingBuffer → ℕ → ℕ → Exit SimpleRingBuffer
done_in s sz ptr =
    if not s.valid
    then returns s
    else if not (ptr == s.input)
    then fatal
    else let wraps = ltb s.size (word (s.input + sz)) in
      let too_large = if wraps then ltb s.alloc_size (word (s.input + sz)) else false in
      if too_large
      then fatal
      else returns (record s {
        memory = if wraps then memcpy 0 s.input (sub_word s.size s.input) s.memory else s.memory;
        input = word (s.input + sz) % s.size;
      })

unfoldable pub next_out : SimpleRingBuffer → ℕ → Exit (SimpleRingBuffer × Option ℕ)
next_out s sz =
    if not s.valid
    then returns (s, none)
    else if ltb (rq_used s.input s.output s.size) sz
    then returns (s, none)
    else if not (ltb s.size (word (s.output + sz)))
    then returns (s, some s.output)
    else if ltb s.alloc_size (word (s.output + sz))
    then fatal
    else returns (
      record s {
        memory = memcpy s.size s.output (sub_word sz (sub_word s.size s.output)) s.memory;
      },
      some s.output,
    )

unfoldable pub done_out : SimpleRingBuffer → ℕ → ℕ → Exit SimpleRingBuffer
done_out s sz ptr =
    if not s.valid
    then returns s
    else if not (ptr == s.output)
    then fatal
    else if ltb s.alloc_size (word (s.output + sz))
    then fatal
    else returns (record s { output = word (s.output + sz) % s.size })

unfoldable pub signal_producer_done : SimpleRingBuffer → SimpleRingBuffer
signal_producer_done s = if not s.valid then s else record s { producer_done = true }

unfoldable pub is_producer_done : SimpleRingBuffer → Bool
is_producer_done s = if s.valid then s.producer_done else false

-- The remnant: its offset and length.
unfoldable pub get_fractional_completion :
    SimpleRingBuffer → Exit (SimpleRingBuffer × Option (ℕ × ℕ))
get_fractional_completion s =
    let used = rq_used s.input s.output s.size in
    if not s.valid
    then returns (s, none)
    else if not s.producer_done
    then fatal
    else if not (ltb s.size (word (s.output + used)))
    then returns (s, some (s.output, used))
    else if ltb s.alloc_size (word (s.output + used))
    then fatal
    else returns (
      record s {
        memory = memcpy s.size s.output (sub_word used (sub_word s.size s.output)) s.memory;
      },
      some (s.output, used),
    )

unfoldable pub reset : SimpleRingBuffer → SimpleRingBuffer
reset s = if not s.valid then s else record s { input = 0; output = 0; producer_done = false }
