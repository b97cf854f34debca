-- ===== src/Messages/Valid.antt =====
-- What `_validate` makes of packed responses.
use data_recorder.Base.{
  drop, sym, ℕ, zero, suc, ◌+◌, ◌-◌, ◌/◌, ◌%◌, ◌≡◌, ◌≤◌, ◌<◌, refl, ap, ◌∙◌, Bool, true, false,
  List, [], ◌∷◌, ◌++◌, length, take, if◌then◌else◌, ◌==◌, ltb, arith, Bool-cases, inl, inr,
  length-take_of_le,
}
use data_recorder.Messages.{
  pack2, Response, all, isalnum, isprint, space, validate, field, pack, cut, columns, join, c_text,
  text_column, number_column, pad, repeat, digits,
}
use data_recorder.Messages.Decimal.{length-number_column, length-text_column}
use data_recorder.Messages.Columns.{IsFit, pack-append, data-join, cut-le, cut-max}
use data_recorder.Messages.Roundtrip.{pack2-status, pack2-size}

-- The characters of the fields before the ignored one.
abbrev pub is_field : ℕ → Bool
is_field c = if isalnum c then true else c == space

module _ (test : ℕ → Bool) where
  all-append :
      (xs ys : List ℕ) → all test xs ≡ true → all test ys ≡ true → all test (xs ++ ys) ≡ true
  all-append [] ys h k = k
  all-append (x ∷ xs) ys h k = ground (arith, h, all-append xs ys, k)

  all-take : (n : ℕ) (xs : List ℕ) → all test xs ≡ true → all test (take n xs) ≡ true
  all-take zero xs h = refl
  all-take (suc n) [] h = refl
  all-take (suc n) (x ∷ xs) h = ground (arith, h, all-take n xs)

  all-repeat : (n c : ℕ) → test c ≡ true → all test (repeat n c) ≡ true
  all-repeat zero c h = refl
  all-repeat (suc n) c h = rw h (all-repeat n c h)

  all-pad :
      (n : ℕ) (xs : List ℕ) → test space ≡ true → all test xs ≡ true → all test (pad n xs) ≡ true
  unfolding pad
  all-pad n xs s h =
      all-append xs (repeat (n - length xs) space) h (all-repeat (n - length xs) space s)

  all-c_text : (xs : List ℕ) → all test xs ≡ true → all test (c_text xs) ≡ true
  unfolding c_text
  all-c_text [] h = refl
  all-c_text (x ∷ xs) h = ground (arith, h, all-c_text xs)

  all-text_column :
      (n : ℕ) (xs : List ℕ)
      → test space ≡ true
      → all test xs ≡ true
      → all test (text_column n xs) ≡ true
  unfolding text_column
  all-text_column n xs s h =
      all-pad n (take n (c_text xs)) s (all-take n (c_text xs) (all-c_text xs h))

is_field-digit : (d : ℕ) → d < 10 → is_field (48 + d) ≡ true
is_field-digit d h = ground (arith, h)

all-digits : (fuel n : ℕ) → all is_field (digits fuel n) ≡ true
unfolding digits
all-digits zero n = refl
all-digits (suc fuel) n = elim (Bool-cases (ltb n 10)) [
  | inl e ↦
      let small : n < 10 = ground (arith, e) in
      let one : is_field (48 + n) ≡ true = is_field-digit n small in rw (e, one)
  | inr e ↦
      let one : is_field (48 + n % 10) ≡ true = is_field-digit (n % 10) (omega arith) in
      rw e (
        all-append is_field (digits fuel (n / 10)) ((48 + n % 10) ∷ []) (all-digits fuel (n / 10))
          (rw one))
]

all-number_column : (width n : ℕ) → all is_field (number_column width n) ≡ true
unfolding number_column
all-number_column width n = all-pad is_field width (digits 20 n) refl (all-digits 20 n)

-- The texts of a response have the characters that messages may have.
pub record IsClean (r : Response) (comment : List ℕ) : Type 0 where
  pub to_clean : all is_field r.to ≡ true
  pub from_clean : all is_field r.from ≡ true
  pub kind_clean : all is_field r.kind ≡ true
  pub status_clean : all isprint r.status ≡ true
  pub comment_clean : all isprint comment ≡ true

-- A message of the right size whose parts pass the two loops is valid.
validate_of_parts :
    (m : List ℕ) (len : ℕ)
    → len ≤ 8146
    → all is_field (field 0 37 m) ≡ true
    → all isprint (field 38 (len + 8) m) ≡ true
    → validate m (46 + len) ≡ true
unfolding validate
validate_of_parts m len small front_ok data_ok =
    let rest : 46 + len - 38 ≡ len + 8 = omega arith in
    let above : ltb (46 + len) 38 ≡ false = ground arith in
    let below : ltb 8192 (46 + len) ≡ false = ground (arith, small) in
    rw (above, below, front_ok, rest) data_ok

-- `_pack` of a response whose numbers fit their columns, with letters, digits and spaces in its
-- destination, sender and type, and printable characters in its status and comment, gives a message
-- that `_validate` accepts at the returned length.
pub validate-pack :
    (r : Response) (comment : List ℕ)
    → IsFit r
    → IsClean r comment
    → let (m, size) = pack r comment in validate m size ≡ true
validate-pack r comment v c =
    let len = cut (length comment) in
    let small : len ≤ 8146 = cut-max (length comment) in
    let (tail, packed, size) = pack-append r comment v in
    let kept = take len comment in
    let a = text_column 3 r.to in
    let b = text_column 3 r.from in
    let k = text_column 3 r.kind in
    let d = number_column 9 r.number in
    let e = number_column 4 (len + 8) in
    let f = number_column 6 r.day in
    let g = number_column 9 r.millis in
    let at_sign : List ℕ = 64 ∷ [] in
    let accept = text_column 1 ((if r.accept then 65 else 82) ∷ []) in
    let status = text_column 7 r.status in
    let la = length-text_column 3 r.to in
    let lb = length-text_column 3 r.from in
    let lk = length-text_column 3 r.kind in
    let ld = length-number_column 9 r.number v.number_fits (omega arith) in
    let le = length-number_column 4 (len + 8) (omega (arith, small)) (omega arith) in
    let lf = length-number_column 6 r.day v.day_fits (omega arith) in
    let lg = length-number_column 9 r.millis v.millis_fits (omega arith) in
    let fields : List (List ℕ) = a ∷ b ∷ k ∷ d ∷ e ∷ f ∷ g ∷ [] in
    let text : List (List ℕ) = accept ∷ status ∷ [] in
    let front =
      data-join 0 [] fields [] (join (at_sign ∷ text) (kept ++ tail)) 37 refl
        (omega (arith, la, lb, lk, ld, le, lf, lg)) in
    let body =
      data-join 38 (a ∷ b ∷ k ∷ d ∷ e ∷ f ∷ g ∷ at_sign ∷ []) text kept tail (len + 8)
        (omega (arith, la, lb, lk, ld, le, lf, lg))
        (omega (
          arith,
          length-text_column 1 ((if r.accept then 65 else 82) ∷ []),
          length-text_column 7 r.status,
          length-take_of_le len comment (cut-le (length comment)),
        )) in
    let front_clean : all is_field (join fields []) ≡ true =
      all-append is_field a _ (all-text_column is_field 3 r.to refl c.to_clean) (
        all-append is_field b _ (all-text_column is_field 3 r.from refl c.from_clean) (
          all-append is_field k _ (all-text_column is_field 3 r.kind refl c.kind_clean) (
            all-append is_field d _ (all-number_column 9 r.number) (
              all-append is_field e _ (all-number_column 4 (len + 8)) (
                all-append is_field f _ (all-number_column 6 r.day)
                  (all-append is_field g [] (all-number_column 9 r.millis) refl)))))) in
    let data_clean : all isprint (join text kept) ≡ true =
      all-append isprint accept _ (all-text_column isprint 1 _ refl (accept_clean r.accept)) (
        all-append isprint status kept (all-text_column isprint 7 r.status refl c.status_clean)
          (all-take isprint len comment c.comment_clean)) in
    rw (packed, size)
      (validate_of_parts (join (columns r len) (kept ++ tail)) len small
        (ap (all is_field) front ∙ front_clean) (ap (all isprint) body ∙ data_clean))
  where
    accept_clean : (b : Bool) → all isprint ((if b then 65 else 82) ∷ []) ≡ true
    accept_clean true = refl
    accept_clean false = refl

drop-nil : (n : ℕ) → drop {A = ℕ} n [] ≡ []
drop-nil zero = refl
drop-nil (suc n) = refl

drop-drop : (j k : ℕ) (m : List ℕ) → drop j (drop k m) ≡ drop (k + j) m
drop-drop j zero m = let same : j ≡ 0 + j = omega arith in ap (λ (n : ℕ). drop n m) same
drop-drop j (suc k) [] = drop-nil j ∙ sym (drop-nil (suc k + j))
drop-drop j (suc k) (x ∷ m) =
    let same : suc (k + j) ≡ suc k + j = omega arith in
    drop-drop j k m ∙ ap (λ (n : ℕ). drop n (x ∷ m)) same

-- One byte that fails the test is enough.
all-field :
    (test : ℕ → Bool) (c : ℕ)
    → test c ≡ false
    → (k n : ℕ) (m : List ℕ) → k < n
    → field k 1 m ≡ c ∷ []
    → all test (take n m) ≡ false
all-field test c f k zero m h e = absurd (omega (arith, h))
all-field test c f zero (suc n) [] h e = absurd (cc)
all-field test c f zero (suc n) (x ∷ m) h e = ground (arith, f, e)
all-field test c f (suc k) (suc n) [] h e = absurd (cc)
all-field test c f (suc k) (suc n) (x ∷ m) h e =
    ground (arith, all-field test c f k n m (omega (arith, h)) e)

validate_of_bad_byte :
    (m : List ℕ) (len : ℕ)
    → len ≤ 8146
    → all isprint (field 38 (len + 8) m) ≡ false
    → validate m (46 + len) ≡ false
unfolding validate
validate_of_bad_byte m len small bad =
    let rest : 46 + len - 38 ≡ len + 8 = omega arith in
    let above : ltb (46 + len) 38 ≡ false = ground arith in
    let below : ltb 8192 (46 + len) ≡ false = ground (arith, small) in
    elim (Bool-cases (all is_field (field 0 37 m))) [
      | inl e ↦ rw (above, below, e, rest) bad
      | inr e ↦ rw (above, below, e)
    ]

-- `_pack2` of a response whose numbers fit their columns gives a message that `_validate` refuses at
-- the returned length: a 0 byte stands in place of the last of the 7 characters of its status.
pub validate-pack2 :
    (r : Response) (comment : List ℕ)
    → IsFit r
    → let (m, size) = pack2 r comment in (validate m size ≡ false) × (field 45 1 m ≡ 0 ∷ [])
validate-pack2 r comment v =
    let len = cut (length comment) in
    let m = (pack2 r comment).0 in
    let byte = pack2-status r comment v in
    let inside : field 7 1 (drop 38 m) ≡ 0 ∷ [] = ap (take 1) (drop-drop 7 38 m) ∙ byte in
    let bad : all isprint (field 38 (len + 8) m) ≡ false =
      all-field isprint 0 refl 7 (len + 8) (drop 38 m) (omega arith) inside in
    (
      ap (validate m) (pack2-size r comment v)
          ∙ validate_of_bad_byte m len (cut-max (length comment)) bad,
      byte,
    )
