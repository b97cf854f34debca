-- ===== src/Buffers/Simple/Bytes.antt =====
-- What the ring's indices and bytes are after a call.
use native.Mathlib.Nat.{mod-lt, mod-eq-sub-mod, mod-eq_of_lt}
use data_recorder.Base.{
  ℕ, ◌+◌, ◌-◌, ◌%◌, ◌^◌, ◌≡◌, ◌≤◌, ◌<◌, ap, true, some, ltb, if◌then◌else◌, returns, word, sub_word,
  arith, ◌⊎◌, inl, inr, ◌∙◌,
}
use native.Mathlib.Decide.{dec_lt}
use data_recorder.Buffers.Ring.{rq_used}
use data_recorder.Buffers.Simple.{SimpleRingBuffer, next_in, done_in, memcpy}

-- Valid indices, and sizes with room for the sums of the code.
pub record IsSound (s : SimpleRingBuffer) : Type 0 where
  pub allocated : s.valid ≡ true
  pub in_range : s.input < s.size
  pub out_range : s.output < s.size
  pub total : s.alloc_size ≡ s.size + s.overflow
  pub small : s.size + s.overflow < 2 ^ 62

-- A step of less than the size from an index.
step :
    (i k size : ℕ)
    → i < size
    → k < size
    → ((i + k < size) × ((i + k) % size ≡ i + k))
      ⊎ ((size ≤ i + k) × ((i + k) % size + size ≡ i + k))
step i k size h l = elim (dec_lt (i + k) size) [
  | yes p ↦ inl (p, mod-eq_of_lt p)
  | no p ↦ inr (
    omega arith,
    omega (
      arith,
      mod-eq-sub-mod {n = i + k} {m = size} (omega arith),
      mod-eq_of_lt {n = i + k - size} {m = size} (omega arith),
    ),
  )
]

next_in-granted :
    (s : SimpleRingBuffer) (sz : ℕ)
    → IsSound s
    → sz < s.size
    → next_in s sz ≡ returns (some s.input)
    → (rq_used s.input s.output s.size + sz < s.size) × (s.input + sz ≤ s.alloc_size)
unfolding next_in rq_used
next_in-granted s sz v small granted =
    ground (arith, v.allocated, v.in_range, v.out_range, v.total, v.small, small, granted)

abbrev pub entered : SimpleRingBuffer → ℕ → SimpleRingBuffer
entered s sz = record s {
  memory =
      if ltb s.size (word (s.input + sz))
      then memcpy 0 s.input (sub_word s.size s.input) s.memory
      else s.memory;
  input = word (s.input + sz) % s.size;
}

done_in-entered :
    (s : SimpleRingBuffer) (sz : ℕ)
    → s.valid ≡ true
    → s.input + sz ≤ s.alloc_size
    → s.alloc_size < 2 ^ 62
    → done_in s sz s.input ≡ returns (entered s sz)
unfolding done_in
done_in-entered s sz v h small = ground (arith, v, h, small)

rq_used-step :
    (i o k size : ℕ)
    → i < size
    → o < size
    → size < 2 ^ 62
    → rq_used i o size + k < size
    → rq_used ((i + k) % size) o size ≡ rq_used i o size + k
unfolding rq_used
rq_used-step i o k size hi ho small room =
    ground (arith, step i k size hi (below i o k size ho small room), hi, ho, small, room)
  where
    below : (i o k size : ℕ) → o < size → size < 2 ^ 62 → rq_used i o size + k < size → k < size
    below i o k size ho small room = omega arith

-- When a region smaller than the ring is granted by a ring with valid indices and sizes below
-- 2^62, `doneIn` of it returns, keeps the indices valid, and makes the bytes in use grow by the
-- region's size.
pub done_in-IsSound :
    (s : SimpleRingBuffer) (sz : ℕ)
    → IsSound s
    → sz < s.size
    → next_in s sz ≡ returns (some s.input)
    → (s' : SimpleRingBuffer) × (done_in s sz s.input ≡ returns s')
      × IsSound s'
      × (rq_used s'.input s'.output s'.size ≡ rq_used s.input s.output s.size + sz)
done_in-IsSound s sz v small granted =
    let (room, fits) = next_in-granted s sz v small granted in
    let exact : word (s.input + sz) ≡ s.input + sz = omega (arith, fits, v.total, v.small) in
    (
      entered s sz,
      done_in-entered s sz v.allocated fits (omega (arith, v.total, v.small)),
      record {
        allocated = v.allocated;
        in_range = mod-lt (word (s.input + sz)) (omega (arith, v.in_range));
        out_range = v.out_range;
        total = v.total;
        small = v.small;
      },
      ap (λ n. rq_used (n % s.size) s.output s.size) exact
          ∙ rq_used-step s.input s.output sz s.size v.in_range v.out_range (omega (arith, v.small))
              room,
    )

-- When a region smaller than the ring is granted by a ring with valid indices and ends behind
-- the ring's size, `doneIn` returns, and the bytes at the start of the buffer, as many as lie
-- between the input index and the ring's size, are those from the input index on, not those of
-- the overflow area.
pub done_in-wrapped :
    (s : SimpleRingBuffer) (sz k : ℕ)
    → IsSound s
    → sz < s.size
    → next_in s sz ≡ returns (some s.input)
    → s.size < s.input + sz
    → k < s.size - s.input
    → (s' : SimpleRingBuffer) × (done_in s sz s.input ≡ returns s')
      × (s'.memory k ≡ s.memory (s.input + k))
unfolding memcpy
done_in-wrapped s sz k v small granted wraps near =
    let (room, fits) = next_in-granted s sz v small granted in
    let exact : word (s.input + sz) ≡ s.input + sz = omega (arith, fits, v.total, v.small) in
    let part : sub_word s.size s.input ≡ s.size - s.input = omega (arith, v.small, v.in_range) in
    let first : k - 0 ≡ k = omega arith in
    (
      entered s sz,
      done_in-entered s sz v.allocated fits (omega (arith, v.total, v.small)),
      ground (arith, exact, part, wraps, near, first),
    )
