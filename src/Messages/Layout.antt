-- ===== src/Messages/Layout.antt =====
-- A field of a text that is columns one after the other.
use data_recorder.Base.{
  ℕ, zero, suc, ◌-◌, ◌≡◌, ◌≤◌, refl, ap, ◌∙◌, List, [], ◌∷◌, ◌++◌, length, take, drop, arith,
}
use data_recorder.Messages.{field}

drop-append : (n : ℕ) (xs ys : List ℕ) → length xs ≤ n → drop n (xs ++ ys) ≡ drop (n - length xs) ys
drop-append n [] ys h = ap (λ k. drop k ys) (omega arith)
drop-append zero (x ∷ xs) ys h = absurd (omega arith)
drop-append (suc n) (x ∷ xs) ys h =
    drop-append n xs ys (omega arith) ∙ ap (λ k. drop k ys) (omega arith)

-- A field after the first column.
pub field-skip :
    (offset size : ℕ) (xs ys : List ℕ)
    → length xs ≤ offset
    → field offset size (xs ++ ys) ≡ field (offset - length xs) size ys
field-skip offset size xs ys h = ap (take size) (drop-append offset xs ys h)

-- A field that is the first column.
pub field-here : (size : ℕ) (xs ys : List ℕ) → length xs ≡ size → field 0 size (xs ++ ys) ≡ xs
field-here zero [] ys h = refl
field-here zero (x ∷ xs) ys h = absurd (omega arith)
field-here (suc n) [] ys h = absurd (omega arith)
field-here (suc n) (x ∷ xs) ys h = ap (λ l. x ∷ l) (field-here n xs ys (omega arith))

take-take : (n k : ℕ) (xs : List ℕ) → n ≤ k → take n (take k xs) ≡ take n xs
take-take zero k xs h = refl
take-take (suc n) zero xs h = absurd (omega arith)
take-take (suc n) (suc k) [] h = refl
take-take (suc n) (suc k) (x ∷ xs) h = ap (λ l. x ∷ l) (take-take n k xs (omega arith))
