-- ===== src/Messages/Columns.antt =====
-- A packed response is its columns, then the comment.
use data_recorder.Base.{
  ℕ, zero, suc, ◌+◌, ◌-◌, ◌^◌, ◌≡◌, ◌≤◌, ◌<◌, refl, sym, ap, ◌∙◌, List, [], ◌∷◌, ◌++◌, length,
  length-append, take, drop, arith, if◌then◌else◌, length-take_of_le,
}
use data_recorder.Messages.{
  field, write_at, Response, header, snprintf, cut, pack_with, pack, repeat, response_min_size,
  message_max_size, columns, join,
}
use data_recorder.Messages.Decimal.{length-number_column, length-text_column}
use data_recorder.Messages.Layout.{field-skip, field-here}

-- The numbers of a response fit their columns.
pub record IsFit (r : Response) : Type 0 where
  pub number_fits : r.number < 10 ^ 9
  pub day_fits : r.day < 10 ^ 6
  pub millis_fits : r.millis < 10 ^ 9

pub append_assoc : (xs ys zs : List ℕ) → (xs ++ ys) ++ zs ≡ xs ++ (ys ++ zs)
append_assoc [] ys zs = refl
append_assoc (x ∷ xs) ys zs = ap (λ l. x ∷ l) (append_assoc xs ys zs)

take-all : (n : ℕ) (xs : List ℕ) → length xs ≤ n → take n xs ≡ xs
take-all zero [] h = refl
take-all zero (x ∷ xs) h = absurd (omega arith)
take-all (suc n) [] h = refl
take-all (suc n) (x ∷ xs) h = ap (λ l. x ∷ l) (take-all n xs (omega arith))

pub cut-le : (n : ℕ) → cut n ≤ n
unfolding cut
cut-le n = ground arith

pub cut-max : (n : ℕ) → cut n ≤ 8146
unfolding cut
cut-max n = ground arith

pub join-append : (cs : List (List ℕ)) (xs ys : List ℕ) → join cs xs ++ ys ≡ join cs (xs ++ ys)
join-append [] xs ys = refl
join-append (c ∷ cs) xs ys =
    append_assoc c (join cs xs) ys ∙ ap (λ l. c ++ l) (join-append cs xs ys)

abbrev pub widths : List (List ℕ) → ℕ
widths [] = 0
widths (c ∷ cs) = length c + widths cs

pub length-join : (cs : List (List ℕ)) → length (join cs []) ≡ widths cs
length-join [] = refl
length-join (c ∷ cs) = length-append c (join cs []) ∙ ap (λ n. length c + n) (length-join cs)

pub length-header :
    (r : Response) (len : ℕ) → IsFit r → len ≤ 8146 → length (header r len) ≡ response_min_size
unfolding header
length-header r len v h =
    length-join (columns r len)
    ∙ omega (
      arith,
      length-text_column 3 r.to,
      length-text_column 3 r.from,
      length-text_column 3 r.kind,
      length-number_column 9 r.number v.number_fits (omega arith),
      length-number_column 4 (len + 8) (omega (arith, h)) (omega arith),
      length-number_column 6 r.day v.day_fits (omega arith),
      length-number_column 9 r.millis v.millis_fits (omega arith),
      length-text_column 1 ((if r.accept then 65 else 82) ∷ []),
      length-text_column 7 r.status,
    )

header-join :
    (r : Response) (len : ℕ) (rest : List ℕ) → header r len ++ rest ≡ join (columns r len) rest
unfolding header
header-join r len rest = join-append (columns r len) [] rest

write-snprintf :
    (text comment m : List ℕ)
    → length text ≡ response_min_size
    → (tail : List ℕ) × (write_at response_min_size comment (snprintf message_max_size text m)
        ≡ text ++ (comment ++ tail))
unfolding write_at snprintf
write-snprintf text comment m h =
    let cells = take (message_max_size - 1) text ++ 0 ∷ [] in
    let after = drop (0 + length cells) m in
    let kept : take (message_max_size - 1) text ≡ text =
      take-all (message_max_size - 1) text (omega (arith, h)) in
    let written : cells ++ after ≡ text ++ 0 ∷ after =
      ap (λ l. l ++ 0 ∷ [] ++ after) kept ∙ append_assoc text (0 ∷ []) after in
    (
      drop (response_min_size + length comment) (cells ++ after),
      ap (λ l. l ++ comment ++ drop (response_min_size + length comment) (cells ++ after))
            (ap (λ l. take response_min_size l) written
              ∙ field-here response_min_size text (0 ∷ after) h)
          ∙ append_assoc text comment _,
    )

-- What a text of `response_min_size` bytes and a comment after it make of the buffer.
pub pack-append :
    (r : Response) (comment : List ℕ)
    → IsFit r
    → let len = cut (length comment) in
      (tail : List ℕ) × ((pack r comment).0 ≡ join (columns r len) (take len comment ++ tail))
      × ((pack r comment).1 ≡ response_min_size + len)
unfolding pack pack_with
pack-append r comment v =
    let len = cut (length comment) in
    let text = header r len in
    let size = length-header r len v (cut-max (length comment)) in
    let (tail, e) = write-snprintf text (take len comment) (repeat message_max_size 0) size in
    (tail, e ∙ header-join r len (take len comment ++ tail), ap (λ n. n + len) size)

pub field-join :
    (offset size : ℕ) (before : List (List ℕ)) (c : List ℕ) (after : List (List ℕ)) (rest : List ℕ)
    → widths before ≡ offset
    → length c ≡ size
    → field offset size (join (before ++ c ∷ after) rest) ≡ c
field-join offset size [] c after rest w l =
    ap (λ k. field k size (c ++ join after rest)) (sym w) ∙ field-here size c (join after rest) l
field-join offset size (b ∷ before) c after rest w l =
    field-skip offset size b (join (before ++ c ∷ after) rest) (omega (arith, w))
    ∙ field-join (offset - length b) size before c after rest (omega (arith, w)) l

-- The data of a message: all columns from an offset on, and the comment.
pub data-join :
    (offset : ℕ) (before after : List (List ℕ)) (comment tail : List ℕ) (size : ℕ)
    → widths before ≡ offset
    → widths after + length comment ≡ size
    → field offset size (join (before ++ after) (comment ++ tail)) ≡ join after comment
data-join offset [] after comment tail size w l =
    ap (λ k. field k size (join after (comment ++ tail))) (sym w)
    ∙ ap (λ m. field 0 size m) (sym (join-append after comment tail))
    ∙ field-here size (join after comment) tail (
        ap length (sym (join-comment after comment))
        ∙ length-append (join after []) comment
        ∙ omega (arith, length-join after, l))
  where
    join-comment :
        (after : List (List ℕ)) (comment : List ℕ) → join after [] ++ comment ≡ join after comment
    join-comment after comment = join-append after [] comment
data-join offset (b ∷ before) after comment tail size w l =
    field-skip offset size b (join (before ++ after) (comment ++ tail)) (omega (arith, w))
    ∙ data-join (offset - length b) before after comment tail size (omega (arith, w)) l

pub short-snprintf :
    (text comment m : List ℕ)
    → length text ≡ response_min_size
    → field 45 1 (write_at response_min_size comment (snprintf response_min_size text m)) ≡ 0 ∷ []
unfolding write_at snprintf
short-snprintf text comment m h =
    let xs = take 45 text in
    let size : length xs ≡ 45 = length-take_of_le 45 text (omega (arith, h)) in
    let none_left : 45 - length xs ≡ 0 = omega (arith, size) in
    let cells = xs ++ 0 ∷ [] in
    let after = drop (0 + length cells) m in
    let tail = drop (response_min_size + length comment) (cells ++ after) in
    let first : take response_min_size (cells ++ after) ≡ cells =
      field-here response_min_size cells after (omega (arith, length-append xs (0 ∷ []), size)) in
    ap (λ l. field 45 1 (l ++ comment ++ tail)) first
    ∙ ap (λ l. field 45 1 (l ++ tail)) (append_assoc xs (0 ∷ []) comment)
    ∙ ap (λ l. field 45 1 l) (append_assoc xs (0 ∷ [] ++ comment) tail)
    ∙ field-skip 45 1 xs (0 ∷ [] ++ comment ++ tail) (omega (arith, size))
    ∙ ap (λ k. field k 1 (0 ∷ [] ++ comment ++ tail)) none_left
