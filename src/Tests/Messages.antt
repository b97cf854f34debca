-- ===== src/Tests/Messages.antt =====
-- A response of DROS2/Common/CommonICD.h.
use data_recorder.Base.{
  false, refl, ℕ, ◌+◌, ◌≡◌, arith, true, List, [], ◌∷◌, ◌++◌, length, take, if◌then◌else◌,
}
use data_recorder.Messages.{
  Response, pack, pack2, destination, sender, message_type, reference, data_length, mjd, mpm,
  message_data, text_column, cut, field, validate,
}
use data_recorder.Messages.Columns.{IsFit}
use data_recorder.Messages.Valid.{IsClean, validate-pack, validate-pack2}
use data_recorder.Messages.Roundtrip.{pack_roundtrip}

-- To `MCS`, from `DR1`, of type `RPT`, with status `NORMAL`.
abbrev report : Response
report = record {
  to = 77 ∷ 67 ∷ 83 ∷ [];
  from = 68 ∷ 82 ∷ 49 ∷ [];
  kind = 82 ∷ 80 ∷ 84 ∷ [];
  number = 1234;
  day = 60000;
  millis = 43200000;
  accept = true;
  status = 78 ∷ 79 ∷ 82 ∷ 77 ∷ 65 ∷ 76 ∷ [];
}

abbrev comment : List ℕ
comment = 79 ∷ 75 ∷ []

report-IsFit : IsFit report
report-IsFit = record {
  number_fits = omega arith;
  day_fits = omega arith;
  millis_fits = omega arith;
}

pack_roundtrip_example :
    let (m, size) = pack report comment in
    let len = cut (length comment) in
    (destination m ≡ text_column 3 report.to)
    × (sender m ≡ text_column 3 report.from)
    × (message_type m ≡ text_column 3 report.kind)
    × (reference m ≡ report.number)
    × (data_length m ≡ len + 8)
    × (mjd m ≡ report.day)
    × (mpm m ≡ report.millis)
    × (message_data m
        ≡ text_column 1 ((if report.accept then 65 else 82) ∷ [])
          ++ (text_column 7 report.status ++ take len comment))
    × (size ≡ 46 + len)
pack_roundtrip_example = pack_roundtrip report comment report-IsFit

validate-pack2_example :
    let (m, size) = pack2 report comment in (validate m size ≡ false) × (field 45 1 m ≡ 0 ∷ [])
validate-pack2_example = validate-pack2 report comment report-IsFit

report-IsClean : IsClean report comment
report-IsClean = record {
  to_clean = refl;
  from_clean = refl;
  kind_clean = refl;
  status_clean = refl;
  comment_clean = refl;
}

validate-pack_example : let (m, size) = pack report comment in validate m size ≡ true
validate-pack_example = validate-pack report comment report-IsFit report-IsClean
