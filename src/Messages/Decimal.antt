-- ===== src/Messages/Decimal.antt =====
-- Numbers in columns: printed and read back.
use data_recorder.Base.{
  ℕ, zero, suc, ◌+◌, ◌-◌, ◌*◌, ◌/◌, ◌%◌, ◌^◌, ◌≡◌, ◌≤◌, ◌<◌, refl, ap, ◌∙◌, true, false, List, [],
  ◌∷◌, ◌++◌, ◌==◌, ltb, length, length-append, take, arith, Bool-cases, inl, inr, ◌≢◌,
}
use data_recorder.Messages.{
  digits, parse_from, strtoul, is_digit, pad, repeat, space, number_column, c_text, text_column,
}

snoc-append : (xs : List ℕ) (x : ℕ) (rest : List ℕ) → (xs ++ x ∷ []) ++ rest ≡ xs ++ x ∷ rest
snoc-append [] x rest = refl
snoc-append (y ∷ xs) x rest = ap (λ l. y ∷ l) (snoc-append xs x rest)

parse_digit :
    (n d : ℕ) (rest : List ℕ)
    → d < 10
    → parse_from n ((48 + d) ∷ rest) ≡ parse_from (n * 10 + d) rest
unfolding parse_from
parse_digit n d rest h =
    let test : is_digit (48 + d) ≡ true = ground (arith, h) in
    let value : 48 + d - 48 ≡ d = omega arith in rw (test, value)

parse-digits :
    (fuel n : ℕ) (rest : List ℕ)
    → n < 10 ^ fuel
    → 0 < fuel
    → parse_from 0 (digits fuel n ++ rest) ≡ parse_from n rest
unfolding digits
parse-digits zero n rest h f = absurd (omega arith)
parse-digits (suc fuel) n rest h f = elim (Bool-cases (ltb n 10)) [
  | inl e ↦
      let small : n < 10 = ground (arith, e) in
      rw e (parse_digit 0 n rest small ∙ ap (λ k. parse_from k rest) (omega arith))
  | inr e ↦
      let large : 10 ≤ n = ground (arith, e) in
      let below : n / 10 < 10 ^ fuel = omega (arith, h) in
      let one : 0 < fuel = fuel_pos fuel (n / 10) below (omega (arith, large)) in
      let last : n / 10 * 10 + n % 10 ≡ n = omega arith in
      rw e (
        ap (λ l. parse_from 0 l) (snoc-append (digits fuel (n / 10)) (48 + n % 10) rest)
        ∙ parse-digits fuel (n / 10) ((48 + n % 10) ∷ rest) below one
        ∙ parse_digit (n / 10) (n % 10) rest (omega arith)
        ∙ ap (λ k. parse_from k rest) last)
]
  where
    fuel_pos : (fuel m : ℕ) → m < 10 ^ fuel → 0 < m → 0 < fuel
    fuel_pos zero m h g = absurd (omega (arith, h, g))
    fuel_pos (suc fuel) m h g = omega arith

-- A number below 10^width takes at most `width` digits.
pub length-digits : (fuel width n : ℕ) → n < 10 ^ width → 0 < width → length (digits fuel n) ≤ width
unfolding digits
length-digits zero width n h w = omega arith
length-digits (suc fuel) zero n h w = absurd (omega arith)
length-digits (suc fuel) (suc width) n h w = elim (Bool-cases (ltb n 10)) [
  | inl e ↦ rw e (omega arith)
  | inr e ↦
      let large : 10 ≤ n = ground (arith, e) in
      let below : n / 10 < 10 ^ width = omega (arith, h) in
      let one : 0 < width = width_pos width (n / 10) below (omega (arith, large)) in
      rw e (
        omega (
          arith,
          length-append (digits fuel (n / 10)) ((48 + n % 10) ∷ []),
          length-digits fuel width (n / 10) below one,
        ))
]
  where
    width_pos : (width m : ℕ) → m < 10 ^ width → 0 < m → 0 < width
    width_pos zero m h g = absurd (omega (arith, h, g))
    width_pos (suc width) m h g = omega arith

-- The text begins with a character that is no space.
abbrev pub Starts : List ℕ → Type 0
Starts cs = (c : ℕ) × (rest : List ℕ) × (cs ≡ c ∷ rest) × (c ≢ space)

digits-Starts : (fuel n : ℕ) → Starts (digits (suc fuel) n)
unfolding digits
digits-Starts zero n = elim (Bool-cases (ltb n 10)) [
  | inl e ↦ rw e (48 + n, [], refl, λ h. absurd (omega (arith, h)))
  | inr e ↦ rw e (48 + n % 10, [], refl, λ h. absurd (omega (arith, h)))
]
digits-Starts (suc fuel) n = elim (Bool-cases (ltb n 10)) [
  | inl e ↦ rw e (48 + n, [], refl, λ h. absurd (omega (arith, h)))
  | inr e ↦
      let (d, rest, front, first) = digits-Starts fuel (n / 10) in
      rw e (d, rest ++ (48 + n % 10) ∷ [], ap (λ l. l ++ (48 + n % 10) ∷ []) front, first)
]

strtoul-Starts : (cs rest : List ℕ) → Starts cs → strtoul (cs ++ rest) ≡ parse_from 0 (cs ++ rest)
unfolding strtoul
strtoul-Starts cs rest (c, cs', e, first) =
    let other : (c == space) ≡ false = ground (arith, first) in rw (e, other, strtoul)

parse-repeat : (n k : ℕ) → parse_from n (repeat k space) ≡ n
unfolding parse_from
parse-repeat n zero = refl
parse-repeat n (suc k) = refl

-- `strtoul` reads back what a column of the format holds.
pub strtoul-number_column : (width n : ℕ) → n < 10 ^ 20 → strtoul (number_column width n) ≡ n
unfolding number_column pad
strtoul-number_column width n h =
    strtoul-Starts (digits 20 n) (repeat (width - length (digits 20 n)) space) (digits-Starts 19 n)
    ∙ parse-digits 20 n (repeat (width - length (digits 20 n)) space) h (omega arith)
    ∙ parse-repeat n (width - length (digits 20 n))

length-repeat : (n c : ℕ) → length (repeat n c) ≡ n
length-repeat zero c = refl
length-repeat (suc n) c = ap suc (length-repeat n c)

length-pad : (width : ℕ) (cs : List ℕ) → length cs ≤ width → length (pad width cs) ≡ width
unfolding pad
length-pad width cs h = omega (
  arith,
  length-append cs (repeat (width - length cs) space),
  length-repeat (width - length cs) space,
)

-- A number below 10^width fills its column.
pub length-number_column :
    (width n : ℕ) → n < 10 ^ width → 0 < width → length (number_column width n) ≡ width
unfolding number_column
length-number_column width n h w = length-pad width (digits 20 n) (length-digits 20 width n h w)

length-take-le : (n : ℕ) (xs : List ℕ) → length (take n xs) ≤ n
length-take-le zero xs = omega arith
length-take-le (suc n) [] = omega arith
length-take-le (suc n) (x ∷ xs) = omega (arith, length-take-le n xs)

-- A text fills its column, cut if need be.
pub length-text_column : (width : ℕ) (cs : List ℕ) → length (text_column width cs) ≡ width
unfolding text_column
length-text_column width cs =
    length-pad width (take width (c_text cs)) (length-take-le width (c_text cs))
