-- ===== src/Messages/Roundtrip.antt =====
-- A response packed and read back.
use data_recorder.Base.{
  ℕ, ◌+◌, ◌≡◌, ◌≤◌, refl, ap, ◌∙◌, List, [], ◌∷◌, ◌++◌, length, take, arith, if◌then◌else◌,
  length-take_of_le,
}
use data_recorder.Messages.{
  field, Response, header, cut, pack_with, pack, pack2, destination, sender, message_type,
  reference, data_length, mjd, mpm, message_data, text_column, number_column, repeat,
  message_max_size, strtoul, columns, join,
}
use data_recorder.Messages.Decimal.{strtoul-number_column, length-number_column, length-text_column}
use data_recorder.Messages.Columns.{
  IsFit, cut-le, cut-max, length-header, pack-append, field-join, data-join, short-snprintf,
}

-- `_pack` of a response whose numbers fit their columns, read back: the destination, sender and type
-- up to their first 0 byte, cut or padded to 3 characters; the reference, the day and the milliseconds
-- as they were; the length of the data; and as data the accept character, the status up to its
-- first 0 byte, cut or padded to 7 characters, and the comment, of which at most 8146 bytes are kept.
-- The returned length is 46 bytes and the comment's.
pub pack_roundtrip :
    (r : Response) (comment : List ℕ)
    → IsFit r
    → let (m, size) = pack r comment in
      let len = cut (length comment) in
      (destination m ≡ text_column 3 r.to)
      × (sender m ≡ text_column 3 r.from)
      × (message_type m ≡ text_column 3 r.kind)
      × (reference m ≡ r.number)
      × (data_length m ≡ len + 8)
      × (mjd m ≡ r.day)
      × (mpm m ≡ r.millis)
      × (message_data m
          ≡ text_column 1 ((if r.accept then 65 else 82) ∷ [])
            ++ (text_column 7 r.status ++ take len comment))
      × (size ≡ 46 + len)
unfolding destination sender message_type reference data_length mjd mpm message_data
pack_roundtrip r comment v =
    let len = cut (length comment) in
    let small : len ≤ 8146 = cut-max (length comment) in
    let (tail, packed, size) = pack-append r comment v in
    let rest = take len comment ++ tail in
    let a = text_column 3 r.to in
    let b = text_column 3 r.from in
    let c = text_column 3 r.kind in
    let d = number_column 9 r.number in
    let e = number_column 4 (len + 8) in
    let f = number_column 6 r.day in
    let g = number_column 9 r.millis in
    let at_sign : List ℕ = 64 ∷ [] in
    let accept = text_column 1 ((if r.accept then 65 else 82) ∷ []) in
    let status = text_column 7 r.status in
    let la = length-text_column 3 r.to in
    let lb = length-text_column 3 r.from in
    let lc = length-text_column 3 r.kind in
    let ld = length-number_column 9 r.number v.number_fits (omega arith) in
    let le = length-number_column 4 (len + 8) (omega (arith, small)) (omega arith) in
    let lf = length-number_column 6 r.day v.day_fits (omega arith) in
    let lg = length-number_column 9 r.millis v.millis_fits (omega arith) in
    let after = at_sign ∷ accept ∷ status ∷ [] in
    let field_e =
      field-join 18 4 (a ∷ b ∷ c ∷ d ∷ []) e (f ∷ g ∷ after) rest (omega (arith, la, lb, lc, ld))
        le in
    let value_e : strtoul e ≡ len + 8 = strtoul-number_column 4 (len + 8) (omega (arith, small)) in
    rw packed (
      field-join 0 3 [] a (b ∷ c ∷ d ∷ e ∷ f ∷ g ∷ after) rest refl la,
      field-join 3 3 (a ∷ []) b (c ∷ d ∷ e ∷ f ∷ g ∷ after) rest (omega (arith, la)) lb,
      field-join 6 3 (a ∷ b ∷ []) c (d ∷ e ∷ f ∷ g ∷ after) rest (omega (arith, la, lb)) lc,
      ap strtoul (
            field-join 9 9 (a ∷ b ∷ c ∷ []) d (e ∷ f ∷ g ∷ after) rest (omega (arith, la, lb, lc))
              ld)
          ∙ strtoul-number_column 9 r.number (omega (arith, v.number_fits)),
      ap strtoul field_e ∙ value_e,
      ap strtoul (
            field-join 22 6 (a ∷ b ∷ c ∷ d ∷ e ∷ []) f (g ∷ after) rest
              (omega (arith, la, lb, lc, ld, le)) lf)
          ∙ strtoul-number_column 6 r.day (omega (arith, v.day_fits)),
      ap strtoul (
            field-join 28 9 (a ∷ b ∷ c ∷ d ∷ e ∷ f ∷ []) g after rest
              (omega (arith, la, lb, lc, ld, le, lf)) lg)
          ∙ strtoul-number_column 9 r.millis (omega (arith, v.millis_fits)),
      ap (λ n. field 38 n (join (columns r len) rest)) (ap strtoul field_e ∙ value_e)
          ∙ data-join 38 (a ∷ b ∷ c ∷ d ∷ e ∷ f ∷ g ∷ at_sign ∷ []) (accept ∷ status ∷ [])
              (take len comment) tail (len + 8) (omega (arith, la, lb, lc, ld, le, lf, lg))
              (omega (
                arith,
                length-text_column 1 ((if r.accept then 65 else 82) ∷ []),
                length-text_column 7 r.status,
                length-take_of_le len comment (cut-le (length comment)),
              )),
      size,
    )

-- `_pack2` of a response whose numbers fit their columns has a 0 byte in place of the last of the 7
-- characters of its status.
pub pack2-status :
    (r : Response) (comment : List ℕ) → IsFit r → field 45 1 (pack2 r comment).0 ≡ 0 ∷ []
unfolding pack2 pack_with
pack2-status r comment v =
    let len = cut (length comment) in
    short-snprintf (header r len) (take len comment) (repeat message_max_size 0)
      (length-header r len v (cut-max (length comment)))

-- Its returned length.
pub pack2-size :
    (r : Response) (comment : List ℕ) → IsFit r → (pack2 r comment).1 ≡ 46 + cut (length comment)
unfolding pack2 pack_with
pack2-size r comment v =
    ap (λ n. n + cut (length comment))
      (length-header r (cut (length comment)) v (cut-max (length comment)))
