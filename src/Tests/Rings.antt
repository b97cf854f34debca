-- ===== src/Tests/Rings.antt =====
-- The rings of DROS2/Buffers with a few objects.
use data_recorder.Base.{
  ◌^◌, ℕ, Bool, ◌+◌, ◌-◌, ◌≡◌, ◌<◌, ◌≤◌, arith, true, false, some, refl, List, [], ◌∷◌, ◌++◌,
  length, drop, returns,
}
use data_recorder.Buffers.Ring.{rq_used}
use data_recorder.Buffers.Generic.{GenericBuffer, new, unallocated, slot, is_inside}
use data_recorder.Buffers.Generic.Pipeline.{Pipe, Turn, produce, consume, run, start}
use data_recorder.Buffers.Generic.Pipeline.Order.{run_in_order}
use data_recorder.Buffers.Simple.{SimpleRingBuffer, next_in, done_in}
use data_recorder.Buffers.Simple.Bytes.{IsSound, done_in-IsSound}

-- Three objects, of which the second stage has read one.
abbrev turns : List (Turn ℕ)
turns =
    produce 7
    ∷ produce 8
    ∷ consume 0
    ∷ consume 1
    ∷ consume 0
    ∷ produce 9
    ∷ consume 1
    ∷ consume 1
    ∷ []

abbrev plenty : ℕ → Bool
plenty n = true

run_in_order_example :
    (b : GenericBuffer) × (p : Pipe ℕ) × (new plenty 16 2 2 ≡ returns b)
    × (run (start b) turns ≡ returns p)
    × ((k : ℕ) → k < 2 → p.produced ≡ p.read k ++ drop (length (p.read k)) p.produced)
    × (length p.produced ≤ length (p.read (2 - 1)) + 2)
run_in_order_example =
    run_in_order plenty 16 2 2 turns (omega arith) (omega arith) (omega arith) (omega arith)
      (omega arith) (omega arith) refl refl
      (
        tt,
        (tt, (omega arith, (omega arith, (omega arith, (tt, (omega arith, (omega arith, tt))))))),
      )

-- Objects of 2^62 bytes: the number of bytes of four slots wraps to 0.
wrapped : GenericBuffer
unfolding unallocated
wrapped = record (unallocated (2 ^ 62) 3 1) { valid = true }

new_wraps : new plenty (2 ^ 62) 3 1 ≡ returns wrapped
unfolding new unallocated wrapped
new_wraps = refl

slot_outside : is_inside wrapped (slot wrapped 0) ≡ false
unfolding is_inside unallocated wrapped
slot_outside = refl

-- A ring of 8 bytes with 4 bytes of overflow, 2 bytes in use.
abbrev bytes : SimpleRingBuffer
bytes = record {
  memory = λ k. k;
  input = 6;
  output = 4;
  size = 8;
  overflow = 4;
  alloc_size = 12;
  producer_done = false;
  valid = true;
}

bytes-IsSound : IsSound bytes
bytes-IsSound = record {
  allocated = refl;
  in_range = omega arith;
  out_range = omega arith;
  total = refl;
  small = omega arith;
}

granted : next_in bytes 4 ≡ returns (some 6)
unfolding next_in rq_used
granted = refl

done_in_example :
    (s' : SimpleRingBuffer) × (done_in bytes 4 6 ≡ returns s')
    × IsSound s'
    × (rq_used s'.input s'.output s'.size ≡ rq_used 6 4 8 + 4)
done_in_example = done_in-IsSound bytes 4 bytes-IsSound (omega arith) granted
