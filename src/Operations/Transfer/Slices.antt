-- ===== src/Operations/Transfer/Slices.antt =====
-- Pieces of a list that stand one after the other. Models no code.
use data_recorder.Base.{
  ℕ, zero, suc, ◌+◌, ◌≤◌, ◌≡◌, refl, ap, List, [], ◌∷◌, ◌++◌, arith, take, drop,
}

module _ {ℓ} {A : Type ℓ} where
  pub append_nil : (xs : List A) → xs ++ [] ≡ xs
  append_nil [] = refl
  append_nil (x ∷ xs) = ap (λ l. x ∷ l) (append_nil xs)

  pub append_assoc : (xs ys zs : List A) → (xs ++ ys) ++ zs ≡ xs ++ (ys ++ zs)
  append_assoc [] ys zs = refl
  append_assoc (x ∷ xs) ys zs = ap (λ l. x ∷ l) (append_assoc xs ys zs)

  pub take-take : (n k : ℕ) (xs : List A) → n ≤ k → take n (take k xs) ≡ take n xs
  take-take zero k xs h = refl
  take-take (suc n) zero xs h = absurd (omega arith)
  take-take (suc n) (suc k) [] h = refl
  take-take (suc n) (suc k) (x ∷ xs) h = ap (λ l. x ∷ l) (take-take n k xs (omega arith))

  pub take-nil : (n : ℕ) → take {A = A} n [] ≡ []
  take-nil zero = refl
  take-nil (suc n) = refl

  drop-nil : (n : ℕ) → drop {A = A} n [] ≡ []
  drop-nil zero = refl
  drop-nil (suc n) = refl

  pub drop-drop : (a b : ℕ) (xs : List A) → drop a (drop b xs) ≡ drop (b + a) xs
  drop-drop a zero xs = let e : 0 + a ≡ a = omega arith in rw e refl
  drop-drop a (suc b) [] = rw (drop-nil a, drop-nil (suc b + a)) refl
  drop-drop a (suc b) (x ∷ xs) =
      let e : suc b + a ≡ suc (b + a) = omega arith in rw e (drop-drop a b xs)

  pub take-add : (a n : ℕ) (xs : List A) → take (a + n) xs ≡ take a xs ++ take n (drop a xs)
  take-add zero n xs = let e : 0 + n ≡ n = omega arith in rw e refl
  take-add (suc a) n [] = rw (take-nil n, take-nil (suc a + n)) refl
  take-add (suc a) n (x ∷ xs) =
      let e : suc a + n ≡ suc (a + n) = omega arith in rw e (ap (λ l. x ∷ l) (take-add a n xs))
