-- ===== src/Base/Lists.antt =====
-- Lists measured and indexed by native numbers, under the library's names.
use Prim.Native.Nat.{ℕ, zero, suc, ◌+◌, ◌≤◌, ◌<◌}
use mathlib.Core.Path.{◌≡◌, refl, ap}
use mathlib.Core.List.{List, [], ◌∷◌, ◌++◌}
use mathlib.Core.Option.{Option, none, some}
use native.Mathlib.Omega.{arith}

module _ {ℓ} {A : Type ℓ} where
  abbrev pub length : List A → ℕ
  length [] = 0
  length (x ∷ xs) = suc (length xs)

  abbrev pub get_elem? : List A → ℕ → Option A
  get_elem? [] i = none
  get_elem? (x ∷ xs) zero = some x
  get_elem? (x ∷ xs) (suc i) = get_elem? xs i

  pub length-append : (xs ys : List A) → length (xs ++ ys) ≡ length xs + length ys
  length-append [] ys = omega arith
  length-append (x ∷ xs) ys = omega (arith, length-append xs ys)

  -- A predicate that holds of every element.
  abbrev pub All {κ} : (A → Type κ) → List A → Type κ
  All P [] = Unit
  All P (x ∷ xs) = P x × All P xs

module _ {ℓ} {A : Type ℓ} where
  abbrev pub take : ℕ → List A → List A
  take zero xs = []
  take (suc n) [] = []
  take (suc n) (x ∷ xs) = x ∷ take n xs

  abbrev pub drop : ℕ → List A → List A
  drop zero xs = xs
  drop (suc n) [] = []
  drop (suc n) (x ∷ xs) = drop n xs

  pub take-append-drop : (n : ℕ) (xs : List A) → take n xs ++ drop n xs ≡ xs
  take-append-drop zero xs = refl
  take-append-drop (suc n) [] = refl
  take-append-drop (suc n) (x ∷ xs) = ap (λ l. x ∷ l) (take-append-drop n xs)

  pub take-append : (n : ℕ) (xs ys : List A) → n ≤ length xs → take n (xs ++ ys) ≡ take n xs
  take-append zero xs ys h = refl
  take-append (suc n) [] ys h = elim h [ ]
  take-append (suc n) (x ∷ xs) ys h = ap (λ l. x ∷ l) (take-append n xs ys (omega arith))

  pub take-suc :
      (n : ℕ) (xs : List A) (x : A)
      → get_elem? xs n ≡ some x
      → take (suc n) xs ≡ take n xs ++ x ∷ []
  take-suc n [] x h = cc
  take-suc zero (y ∷ xs) x h = cc
  take-suc (suc n) (y ∷ xs) x h = ap (λ l. y ∷ l) (take-suc n xs x h)

  pub length-take_of_le : (n : ℕ) (xs : List A) → n ≤ length xs → length (take n xs) ≡ n
  length-take_of_le zero xs h = refl
  length-take_of_le (suc n) [] h = elim h [ ]
  length-take_of_le (suc n) (x ∷ xs) h = ap suc (length-take_of_le n xs (omega arith))

  pub get_elem?-append_left :
      (xs ys : List A) (n : ℕ) → n < length xs → get_elem? (xs ++ ys) n ≡ get_elem? xs n
  get_elem?-append_left [] ys n h = elim h [ ]
  get_elem?-append_left (x ∷ xs) ys zero h = refl
  get_elem?-append_left (x ∷ xs) ys (suc n) h = get_elem?-append_left xs ys n (omega arith)

  pub get_elem?-append_end :
      (xs : List A) (x : A) (n : ℕ) → n ≡ length xs → get_elem? (xs ++ x ∷ []) n ≡ some x
  get_elem?-append_end [] x n h = rw h
  get_elem?-append_end (y ∷ xs) x zero h = absurd (omega arith)
  get_elem?-append_end (y ∷ xs) x (suc n) h = get_elem?-append_end xs x n (omega arith)

  pub get_elem?_of_lt : (xs : List A) (n : ℕ) → n < length xs → (x : A) × (get_elem? xs n ≡ some x)
  get_elem?_of_lt [] n h = elim h [ ]
  get_elem?_of_lt (x ∷ xs) zero h = (x, refl)
  get_elem?_of_lt (x ∷ xs) (suc n) h = get_elem?_of_lt xs n (omega arith)
