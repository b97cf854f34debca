-- ===== src/Reception/Packets.antt =====
-- DROS2/Actors/Receiver.h: how `run` looks at the packets that `recvmmsg` has put into a ticket: the quick check
-- and the count of sizes. A packet is its length and the fields of its header that are read, as they
-- stand on the wire.
use data_recorder.Base.{
  ℕ, zero, suc, ◌+◌, Bool, true, false, List, [], ◌∷◌, ◌==◌, ltb, if◌then◌else◌, not, ◌&&◌, ◌||◌,
  word,
}
use data_recorder.Base.Int.{ℤ, pos, negsuc}
use data_recorder.Reception.Formats.{
  tbs4_frame_size, tbs8_frame_size, tbs12_frame_size, tbt_frame_size, cor_frame_size,
  drx_frame_size, drx8_frame_size,
}
use data_recorder.Reception.Receiver.{Receiver, bswap16}

pub record Packet : Type 0 where
  pub msg_len : ℕ
  pub dec_factor : ℕ
  pub drx_is_adp : Bool
  pub n_chan : ℕ

-- A ticket's frame size, and its packets by their index.
pub record Batch : Type 0 where
  pub fsize : ℕ
  pub frames : ℕ → Packet

-- The received lengths, added up from index `j` on.
unfoldable pub add_lengths : (ℕ → Packet) → ℕ → ℕ → ℕ → ℕ
add_lengths frames j zero bytes = bytes
add_lengths frames j (suc n) bytes =
    add_lengths frames (j + 1) n (word (bytes + (frames j).msg_len))

unfoldable pub is_drx : ℕ → Bool
is_drx fsize = (fsize == drx_frame_size) || (fsize == drx8_frame_size)

unfoldable pub is_tbs : ℕ → Bool
is_tbs fsize =
    (fsize == tbs4_frame_size) || (fsize == tbs8_frame_size) || (fsize == tbs12_frame_size)

-- `!=` of a `uint16_t` with an `int`, and of two `bool`.
unfoldable pub differs : ℕ → ℤ → Bool
differs n (pos m) = not (n == m)
differs n (negsuc m) = true

unfoldable pub other : Bool → Bool → Bool
other true b = not b
other false b = b

-- The variables of the quick check.
pub record Check : Type 0 where
  pub look_more : Bool
  pub drx_rate_change : Bool
  pub tbs_chan_change : Bool
  pub new_drx_dec_factor : ℕ
  pub is_drx8 : Bool
  pub new_tbs_n_chan : ℕ

-- Its first values; the two numbers are set before they are read.
unfoldable pub unchecked : Check
unchecked = record {
  look_more = false;
  drx_rate_change = false;
  tbs_chan_change = false;
  new_drx_dec_factor = 0;
  is_drx8 = false;
  new_tbs_n_chan = 0;
}

-- One packet's header.
unfoldable pub check_header : Receiver → ℕ → Packet → Check → Check
check_header r fsize p c =
    let factor = bswap16 p.dec_factor in
    let n_chan = bswap16 p.n_chan in
    if is_drx fsize
    then record c {
      new_drx_dec_factor = factor;
      is_drx8 = p.drx_is_adp;
      drx_rate_change =
          c.drx_rate_change
          || differs factor r.current_drx_dec_factor
          || other p.drx_is_adp r.current_is_drx8;
    }
    else if is_tbs fsize
    then record c {
      new_tbs_n_chan = n_chan;
      tbs_chan_change = c.tbs_chan_change || differs n_chan r.current_tbs_n_chan;
    }
    else c

-- The quick check of `n` packets, from index `j` on.
unfoldable pub check : Receiver → ℕ → (ℕ → Packet) → ℕ → ℕ → Check → Check
check r fsize frames j zero c = c
check r fsize frames j (suc n) c =
    let c' = check_header r fsize (frames j) c in
    let rest = check r fsize frames (j + 1) n c' in
    if (frames j).msg_len == fsize then rest else record c' { look_more = true }

-- The macros IDX_ERROR, ..., IDX_ODDBALL.
pub data Kind : Type 0 where
  error : Kind
  empty : Kind
  tbs : Kind
  tbt : Kind
  cor : Kind
  drx : Kind
  drx8 : Kind
  oddball : Kind

unfoldable pub index : Kind → ℕ
index error = 0
index empty = 1
index tbs = 2
index tbt = 3
index cor = 4
index drx = 5
index drx8 = 6
index oddball = 7

-- The array `sz`.
unfoldable pub sz : Kind → ℤ
sz error = pos 0
sz empty = negsuc 0
sz tbs = pos tbs8_frame_size
sz tbt = pos tbt_frame_size
sz cor = pos cor_frame_size
sz drx = pos drx_frame_size
sz drx8 = pos drx8_frame_size
sz oddball = negsuc 1

-- The switch on a packet's length, and on the ticket's frame size.
unfoldable pub kind_of : ℕ → Kind
kind_of size =
    if size == 0
    then empty
    else if is_tbs size
    then tbs
    else if size == tbt_frame_size
    then tbt
    else if size == cor_frame_size
    then cor
    else if size == drx_frame_size
    then drx
    else if size == drx8_frame_size
    then drx8
    else oddball

-- The arrays `n` and `last`.
pub record Tally : Type 0 where
  pub n : Kind → ℕ
  pub last : Kind → ℕ

unfoldable pub count : Tally → Kind → ℕ → Tally
count t k j = record {
  n = λ i. if index i == index k then t.n i + 1 else t.n i;
  last = λ i. if index i == index k then j else t.last i;
}

unfoldable pub count_sizes : (ℕ → Packet) → ℕ → ℕ → Tally → Tally
count_sizes frames j zero t = t
count_sizes frames j (suc n) t =
    count_sizes frames (j + 1) n (count t (kind_of (frames j).msg_len) j)

-- `max_count`, `new_frame_size` and `last_seen`.
pub record Winner : Type 0 where
  pub max_count : ℕ
  pub new_frame_size : ℤ
  pub last_seen : ℕ

unfoldable pub find_max : Tally → ℕ → List Kind → Winner → Winner
find_max t cur [] w = w
find_max t cur (k ∷ ks) w = find_max t cur ks (
    if (not (index k == cur)) && ltb w.max_count (t.n k)
    then record { max_count = t.n k; new_frame_size = sz k; last_seen = t.last k }
    else w)

unfoldable pub winner_of : Batch → ℕ → Winner
winner_of batch cnt =
    find_max (count_sizes batch.frames 0 cnt (record { n = λ _. 0; last = λ _. 0 }))
      (index (kind_of batch.fsize)) (error ∷ empty ∷ tbs ∷ tbt ∷ cor ∷ drx ∷ drx8 ∷ [])
      (record { max_count = 0; new_frame_size = negsuc 2; last_seen = 0 })
