-- ===== src/Messages.antt =====
-- DROS2/Common/CommonICD.h: the text format of messages and responses. A message is the list of its
-- bytes, and the buffer has `message_max_size` of them. Of C's library, `snprintf`, `strtoul`, `isalnum`
-- and `isprint` are written out as far as they are used, for the C locale.
pub mod Decimal
pub mod Layout
pub mod Columns
pub mod Roundtrip
pub mod Valid
use data_recorder.Base.{
  ℕ, zero, suc, ◌+◌, ◌-◌, ◌*◌, ◌/◌, ◌%◌, Bool, true, false, not, List, [], ◌∷◌, ◌++◌, ◌==◌, leb,
  ltb, if◌then◌else◌, length, take, drop,
}

abbrev pub message_max_size : ℕ
message_max_size = 8192

-- The fields' sizes (`FS_...` and `RFS_...`) and offsets (`FO_...`), in bytes.
abbrev pub message_min_size : ℕ
message_min_size = 38

abbrev pub response_min_size : ℕ
response_min_size = 46

abbrev pub fo_ignored : ℕ
fo_ignored = 37

abbrev pub space : ℕ
space = 32

abbrev pub between : ℕ → ℕ → ℕ → Bool
between low high c = if leb low c then leb c high else false

abbrev pub is_digit : ℕ → Bool
is_digit c = between 48 57 c

abbrev pub isalnum : ℕ → Bool
isalnum c = if is_digit c then true else if between 65 90 c then true else between 97 122 c

abbrev pub isprint : ℕ → Bool
isprint c = between 32 126 c

abbrev pub all : (ℕ → Bool) → List ℕ → Bool
all test [] = true
all test (c ∷ cs) = if test c then all test cs else false

-- The bytes from an offset on, so many of them.
abbrev pub field : ℕ → ℕ → List ℕ → List ℕ
field offset size m = take size (drop offset m)

-- `_validate`, for a buffer with at least `s` bytes.
unfoldable pub validate : List ℕ → ℕ → Bool
validate m s =
    if ltb s message_min_size
    then false
    else if ltb message_max_size s
    then false
    else if not (all (λ c. if isalnum c then true else c == space) (take fo_ignored m))
    then false
    else all isprint (field (fo_ignored + 1) (s - (fo_ignored + 1)) m)

-- `strtoul` of digits, up to another character, and of a text of digits with spaces around it.
unfoldable pub parse_from : ℕ → List ℕ → ℕ
parse_from n [] = n
parse_from n (c ∷ cs) = if is_digit c then parse_from (n * 10 + (c - 48)) cs else n

unfoldable pub strtoul : List ℕ → ℕ
strtoul [] = 0
strtoul (c ∷ cs) = if c == space then strtoul cs else parse_from 0 (c ∷ cs)

unfoldable pub destination : List ℕ → List ℕ
destination m = field 0 3 m

unfoldable pub sender : List ℕ → List ℕ
sender m = field 3 3 m

-- `_type`
unfoldable pub message_type : List ℕ → List ℕ
message_type m = field 6 3 m

unfoldable pub reference : List ℕ → ℕ
reference m = strtoul (field 9 9 m)

unfoldable pub data_length : List ℕ → ℕ
data_length m = strtoul (field 18 4 m)

unfoldable pub mjd : List ℕ → ℕ
mjd m = strtoul (field 22 6 m)

unfoldable pub mpm : List ℕ → ℕ
mpm m = strtoul (field 28 9 m)

-- `_data`
unfoldable pub message_data : List ℕ → List ℕ
message_data m = field message_min_size (data_length m) m

-- The decimal digits of a number, at most `fuel` of them; a `size_t` has at most 20.
unfoldable pub digits : ℕ → ℕ → List ℕ
digits zero n = []
digits (suc fuel) n =
    let front = digits fuel (n / 10) in
    if ltb n 10 then (48 + n) ∷ [] else front ++ (48 + n % 10) ∷ []

abbrev pub repeat : ℕ → ℕ → List ℕ
repeat zero c = []
repeat (suc n) c = c ∷ repeat n c

-- A text in a column of `width` characters, on the left.
unfoldable pub pad : ℕ → List ℕ → List ℕ
pad width cs = cs ++ repeat (width - length cs) space

-- What C reads of a text that `c_str` gives: the bytes before the first 0.
unfoldable pub c_text : List ℕ → List ℕ
c_text [] = []
c_text (c ∷ cs) = let rest = c_text cs in if c == 0 then [] else c ∷ rest

-- `%-n.ns` and `%-nlu`
unfoldable pub text_column : ℕ → List ℕ → List ℕ
text_column n cs = pad n (take n (c_text cs))

unfoldable pub number_column : ℕ → ℕ → List ℕ
number_column n value = pad n (digits 20 value)

-- `m` with bytes from an offset on replaced.
unfoldable pub write_at : ℕ → List ℕ → List ℕ → List ℕ
write_at offset cs m = take offset m ++ cs ++ drop (offset + length cs) m

-- The arguments of `_pack`, but for the comment.
pub record Response : Type 0 where
  pub to : List ℕ
  pub from : List ℕ
  pub kind : List ℕ
  pub number : ℕ
  pub day : ℕ
  pub millis : ℕ
  pub accept : Bool
  pub status : List ℕ

-- The columns that the format makes of the arguments, for `len` bytes of comment; 64 is the `@`.
abbrev pub columns : Response → ℕ → List (List ℕ)
columns r len =
    text_column 3 r.to
    ∷ text_column 3 r.from
    ∷ text_column 3 r.kind
    ∷ number_column 9 r.number
    ∷ number_column 4 (len + 8)
    ∷ number_column 6 r.day
    ∷ number_column 9 r.millis
    ∷ (64 ∷ [])
    ∷ text_column 1 ((if r.accept then 65 else 82) ∷ [])
    ∷ text_column 7 r.status
    ∷ []

-- Columns one after the other, and a text after them.
abbrev pub join : List (List ℕ) → List ℕ → List ℕ
join [] rest = rest
join (c ∷ cs) rest = c ++ join cs rest

unfoldable pub header : Response → ℕ → List ℕ
header r len = join (columns r len) []

-- `snprintf` of a text into a buffer, of whose bytes it may use `n`.
unfoldable pub snprintf : ℕ → List ℕ → List ℕ → List ℕ
snprintf n text m = write_at 0 (take (n - 1) text ++ 0 ∷ []) m

-- The comment's length after the test.
unfoldable pub cut : ℕ → ℕ
cut len =
    if ltb (message_max_size - response_min_size) len
    then message_max_size - response_min_size
    else len

-- `_pack` and `_pack2`, whose data pointer is not null: the buffer and the length returned. They differ in the size that they pass to
-- `snprintf`.
unfoldable pub pack_with : ℕ → Response → List ℕ → List ℕ × ℕ
pack_with n r comment =
    let len = cut (length comment) in
    let text = header r len in
    (
      write_at response_min_size (take len comment) (snprintf n text (repeat message_max_size 0)),
      length text + len,
    )

unfoldable pub pack : Response → List ℕ → List ℕ × ℕ
pack r comment = pack_with message_max_size r comment

unfoldable pub pack2 : Response → List ℕ → List ℕ × ℕ
pack2 r comment = pack_with response_min_size r comment
