-- ===== src/Time/Stamps.antt =====
-- `Time::addTime`, `subTime`, `getTimeStampDelta` and `compareTimestamps` against the linear count
-- of milliseconds that a stamp stands for.
use data_recorder.Base.{ℕ, ◌+◌, ◌*◌, ◌^◌, ◌≤◌, ◌<◌, ◌≡◌, compare, arith}
use data_recorder.Time.{
  TimeStamp, millis_per_day, compare_timestamps, add_time, sub_time, get_time_stamp_delta,
}

-- A stamp as the clock and the arithmetic make it, with a linear count that fits a `size_t`.
pub record IsStamp (t : TimeStamp) : Type 0 where
  pub in_day : t.mpm < millis_per_day
  pub fits : t.mjd * millis_per_day + t.mpm < 2 ^ 64

-- The linear count with no wrap.
abbrev pub millis : TimeStamp → ℕ
millis t = t.mjd * millis_per_day + t.mpm

-- Comparing stamps is comparing their linear counts.
pub compare_timestamps-linear :
    (a b : TimeStamp)
    → IsStamp a
    → IsStamp b
    → compare_timestamps a b ≡ compare (millis a) (millis b)
unfolding compare_timestamps
compare_timestamps-linear a b va vb = ground arith

-- Adding a duration to a well-formed stamp, with a sum below 2^64, adds it to the count of
-- milliseconds and gives a well-formed stamp again.
pub add_time_lem :
    (t : TimeStamp) (d : ℕ)
    → IsStamp t
    → millis t + d < 2 ^ 64
    → IsStamp (add_time t d) × (millis (add_time t d) ≡ millis t + d)
unfolding add_time
add_time_lem t d v h = omega arith

-- Adding a duration below 2^64 to a well-formed stamp and taking it off again gives back the
-- stamp, whether or not the sum wrapped.
pub sub_time-add_time :
    (t : TimeStamp) (d : ℕ) → IsStamp t → d < 2 ^ 64 → sub_time (add_time t d) d ≡ t
unfolding add_time sub_time
sub_time-add_time t d v h = ground arith

-- For well-formed stamps: the delta from one stamp to one that is not before it, added to the
-- first, gives the second; the delta to an earlier one is zero.
pub add_time-get_time_stamp_delta :
    (a b : TimeStamp)
    → IsStamp a
    → IsStamp b
    → let d = get_time_stamp_delta a b in
      (millis a ≤ millis b → add_time a (millis d) ≡ b) × (millis b < millis a → millis d ≡ 0)
unfolding add_time get_time_stamp_delta
add_time-get_time_stamp_delta a b va vb = ground arith
