-- ===== src/Time.antt =====
-- DROS2/System/Time.h: stamps, slots and their arithmetic, as `class Time` has them.
-- A `size_t` wraps at 2 ^ 64. An `int` of -1, 0 or 1 is an `Ordering`. What `gettimeofday` and
-- `gmtime_r` return is an argument.
pub mod Stamps
pub mod Calendar
pub mod Slots
use data_recorder.Base.{
  ℕ, ◌+◌, ◌-◌, ◌*◌, ◌/◌, ◌%◌, ◌^◌, Bool, true, false, ◌&&◌, ◌||◌, Ordering, ltb, ◌==◌,
  if◌then◌else◌, word, sub_word,
}

-- `MILLIS_PER_DAY`
abbrev pub millis_per_day : ℕ
millis_per_day = 86400000

-- `MICROS_PER_DAY`
abbrev pub micros_per_day : ℕ
micros_per_day = 86400000000

-- `FOREVER`, the largest `millisecond`
abbrev pub forever : ℕ
forever = 2 ^ 64 - 1

pub record TimeStamp : Type 0 where
  pub mjd : ℕ
  pub mpm : ℕ

pub record TimeSlot : Type 0 where
  pub start : TimeStamp
  pub duration : ℕ

-- What `gettimeofday` and `gmtime_r` deliver, after the adjustment of year and month.
pub record Civil : Type 0 where
  pub year : ℕ
  pub month : ℕ
  pub day : ℕ
  pub hour : ℕ
  pub minute : ℕ
  pub second : ℕ
  pub usec : ℕ

unfoldable pub get_mpm : Civil → ℕ
get_mpm c = (c.hour * 3600 + c.minute * 60 + c.second) * 1000 + c.usec / 1000

-- The Julian day number `p + q`; `q` alone is below 0 and wraps.
unfoldable pub day_number : ℕ → ℕ → ℕ → ℕ
day_number year month day =
    let a = (14 - month) / 12 in
    let y = year + 4800 - a in
    let m = month + 12 * a - 3 in
    let p = day + (153 * m + 2) / 5 + 365 * y in
    let q = sub_word (y / 4 - y / 100 + y / 400) 32045 in word (p + q)

-- `(p+q) - 2400000.5` is computed in double and truncated, which takes off 2400001.
unfoldable pub get_mjd : Civil → ℕ
unfolding day_number
get_mjd c = day_number c.year c.month c.day - 2400001

unfoldable pub now : Civil → TimeStamp
unfolding get_mjd get_mpm
now c = record { mjd = get_mjd c; mpm = get_mpm c }

unfoldable pub compare_timestamps : TimeStamp → TimeStamp → Ordering
compare_timestamps a b =
    if ltb a.mjd b.mjd
    then Ordering.lt
    else if ltb b.mjd a.mjd
    then Ordering.gt
    else if ltb a.mpm b.mpm
    then Ordering.lt
    else if ltb b.mpm a.mpm
    then Ordering.gt
    else Ordering.eq

-- `when.MJD*MILLIS_PER_DAY + when.MPM`, which all the arithmetic starts from
abbrev pub linear : TimeStamp → ℕ
linear t = word (t.mjd * millis_per_day + t.mpm)

abbrev pub of_linear : ℕ → TimeStamp
of_linear q = record { mjd = q / millis_per_day; mpm = q % millis_per_day }

unfoldable pub add_time : TimeStamp → ℕ → TimeStamp
add_time when increment = of_linear (word (linear when + increment))

unfoldable pub sub_time : TimeStamp → ℕ → TimeStamp
sub_time when decrement = of_linear (sub_word (linear when) decrement)

unfoldable pub apply_window : TimeSlot → ℕ → TimeSlot
unfolding sub_time
apply_window ts winsize = record {
  start = sub_time ts.start winsize;
  duration = if ts.duration == forever then forever else word (ts.duration + 2 * winsize);
}

unfoldable pub get_time_stamp_delta : TimeStamp → TimeStamp → TimeStamp
get_time_stamp_delta start stop =
    if ltb (linear stop) (linear start)
    then record { mjd = 0; mpm = 0 }
    else of_linear (linear stop - linear start)

abbrev pub is_lt : Ordering → Bool
is_lt Ordering.lt = true
is_lt _ = false

abbrev pub is_gt : Ordering → Bool
is_gt Ordering.gt = true
is_gt _ = false

-- `compareTimestamps(a,b) <= 0`
unfoldable pub not_after : TimeStamp → TimeStamp → Bool
not_after a b = elim (compare_timestamps a b) [ Ordering.gt ↦ false | _ ↦ true ]

unfoldable pub overlaps : TimeSlot → TimeSlot → Bool
overlaps a b =
    let astop = add_time a.start a.duration in
    let bstop = add_time b.start b.duration in
    if a.duration == forever || b.duration == forever
    then true
    else if is_lt (compare_timestamps a.start b.start) && is_lt (compare_timestamps astop b.start)
    then false
    else if is_gt (compare_timestamps a.start bstop) && is_gt (compare_timestamps astop bstop)
    then false
    else true

-- `Time::compare` of a slot and a stamp. In the inner call the stamp `b` is converted to the slot
-- that starts there and lasts `FOREVER`, for which the inner call's last line is not reached.
unfoldable pub compare_slot_stamp : TimeSlot → TimeStamp → Ordering
compare_slot_stamp a b =
    let stop = add_time a.start a.duration in
    let inner = if is_lt (compare_timestamps stop b) then Ordering.lt else Ordering.eq in
    if is_lt (compare_timestamps b a.start)
    then Ordering.lt
    else if a.duration == forever
    then Ordering.eq
    else if is_gt inner
    then Ordering.gt
    else Ordering.eq

-- `Time::compare` of two slots
unfoldable pub compare_slots : TimeSlot → TimeSlot → Ordering
compare_slots a b = elim (compare_timestamps a.start b.start) [
  | Ordering.lt ↦
      if a.duration == forever
      then Ordering.eq
      else if is_lt (compare_timestamps (add_time a.start a.duration) b.start)
      then Ordering.lt
      else Ordering.eq
  | Ordering.gt ↦
      if b.duration == forever
      then Ordering.eq
      else if is_lt (compare_timestamps (add_time b.start b.duration) a.start)
      then Ordering.gt
      else Ordering.eq
  | Ordering.eq ↦ Ordering.eq
]
