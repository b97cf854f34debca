-- ===== src/Buffers/Ring.antt =====
-- The index macros of DROS2/Buffers/GenericBuffer.h, and the counters that ring indices stand for.
use native.Mathlib.Decide.{dec_lt}
use native.Mathlib.Nat.{mod-add-mod, mod-eq_of_lt, mod-eq-sub-mod, mod-lt}
use data_recorder.Base.{
  ℕ, ◌+◌, ◌-◌, ◌%◌, ◌^◌, ◌≤◌, ◌<◌, ◌≡◌, ◌≢◌, ◌⊎◌, inl, inr, ◌∙◌, sym, ap, arith, leb, if◌then◌else◌,
  word, sub_word,
}

unfoldable pub rq_used : ℕ → ℕ → ℕ → ℕ
rq_used in_ out size = if leb out in_ then in_ - out else sub_word (word (in_ + size)) out

unfoldable pub rq_free : ℕ → ℕ → ℕ → ℕ
unfolding rq_used
rq_free in_ out size = sub_word (sub_word size 1) (rq_used in_ out size)

unfoldable pub rq_next : ℕ → ℕ → ℕ
rq_next idx size = word (idx + 1) % size

-- Two indices `k < size` steps apart on a ring.
mod_step :
    (c k size : ℕ)
    → k < size
    → ((c % size + k < size) × ((c + k) % size ≡ c % size + k))
      ⊎ ((size ≤ c % size + k) × ((c + k) % size + size ≡ c % size + k))
mod_step c k size h = elim (dec_lt (c % size + k) size) [
  | yes p ↦ inl (p, sym (mod-add-mod c size k) ∙ mod-eq_of_lt p)
  | no p ↦ inr (
    omega arith,
    omega (
      arith,
      mod-add-mod c size k,
      mod-eq-sub-mod {n = c % size + k} {m = size} (omega arith),
      mod-eq_of_lt {n = c % size + k - size} {m = size}
          (omega (arith, mod-lt c {m = size} (omega arith))),
    ),
  )
]

split : (hi lo : ℕ) → lo ≤ hi → hi ≡ lo + (hi - lo)
split hi lo h = omega arith

-- Indices of two counters that are less than `size` apart: the macro gives their distance.
pub rq_used-counters :
    (hi lo size : ℕ)
    → lo ≤ hi
    → hi < lo + size
    → size < 2 ^ 63
    → rq_used (hi % size) (lo % size) size ≡ hi - lo
unfolding rq_used
rq_used-counters hi lo size h1 h2 h3 = ground (
  arith,
  mod_step lo (hi - lo) size (omega arith),
  ap (λ (n : ℕ). n % size) (split hi lo h1),
  mod-lt lo {m = size} (omega arith),
)

pub rq_free-counters :
    (hi lo size : ℕ)
    → lo ≤ hi
    → hi < lo + size
    → size < 2 ^ 63
    → rq_free (hi % size) (lo % size) size ≡ size - 1 - (hi - lo)
unfolding rq_free
rq_free-counters hi lo size h1 h2 h3 = omega (arith, rq_used-counters hi lo size h1 h2 h3)

-- Stepping the index steps the counter.
pub rq_next-counter :
    (c size : ℕ) → 0 < size → size < 2 ^ 63 → rq_next (c % size) size ≡ (c + 1) % size
unfolding rq_next
rq_next-counter c size h1 h2 =
    rw (mod-eq_of_lt {n = c % size + 1} {m = 2 ^ 64} (omega (arith, mod-lt c h1)))
      (mod-add-mod c size 1)

-- Two different counters less than `size` apart have different indices.
pub counters-ne : (hi lo size : ℕ) → lo < hi → hi < lo + size → hi % size ≢ lo % size
counters-ne hi lo size h1 h2 e = ground (
  arith,
  mod_step lo (hi - lo) size (omega arith),
  ap (λ (n : ℕ). n % size) (split hi lo (omega arith)),
)
