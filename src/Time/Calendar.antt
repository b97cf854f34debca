-- ===== src/Time/Calendar.antt =====
-- The day count of `Time::getMJD`, `now` and `micros_toStamp`, against the Gregorian calendar.
use data_recorder.Base.{
  ℕ, ◌+◌, ◌/◌, ◌%◌, ◌≤◌, ◌<◌, ◌≡◌, ◌≢◌, inl, inr, arith, ltb, ◌==◌, if◌then◌else◌, Bool, not, zero,
  suc, Bool-cases, ◌&&◌, ◌||◌,
}
use data_recorder.Time.{Civil, day_number, get_mjd, get_mpm, now}
use data_recorder.Time.Stamps.{IsStamp}

abbrev is_leap : ℕ → Bool
is_leap y = (y % 4 == 0) && (not (y % 100 == 0) || (y % 400 == 0))

-- The number of days of a month.
abbrev month_length : ℕ → ℕ → ℕ
month_length y m =
    if m == 2
    then (if is_leap y then 29 else 28)
    else if m == 4 || m == 6 || m == 9 || m == 11
    then 30
    else 31

-- A date of the calendar, in the years that a 64-bit day number covers.
pub record IsDate (y m d : ℕ) : Type 0 where
  pub month_pos : 1 ≤ m
  pub month_le : m ≤ 12
  pub day_pos : 1 ≤ d
  pub day_le : d ≤ month_length y m
  pub year_le : y < 1000000

-- The date of the day after.
abbrev pub next_date : ℕ → ℕ → ℕ → ℕ × ℕ × ℕ
next_date y m d =
    if ltb d (month_length y m)
    then (y, m, d + 1)
    else if m == 12
    then (y + 1, 1, 1)
    else (y, m + 1, 1)

within_month :
    (y m d : ℕ)
    → 1 ≤ m
    → m ≤ 12
    → d < 31
    → y < 1000000
    → day_number y m (d + 1) ≡ day_number y m d + 1
unfolding day_number
within_month y m d h1 h2 h3 h4 = omega arith

-- Quarters of the year count that change at a leap day.
leap_step :
    (y : ℕ)
    → (y + 4800) / 4 + (y + 4799) / 100 + (y + 4800) / 400
      ≡ (y + 4799) / 4 + (y + 4800) / 100 + (y + 4799) / 400 + (if is_leap y then 1 else 0)
leap_step y = ground arith

february_end : (y : ℕ) → y < 1000000 → day_number y 3 1 ≡ day_number y 2 (month_length y 2) + 1
unfolding day_number
february_end y h = elim (Bool-cases (is_leap y)) [
  | inl e ↦ rw e (omega (arith, rw e at (leap_step y)))
  | inr e ↦ rw e (omega (arith, rw e at (leap_step y)))
]

year_end : (y : ℕ) → y < 1000000 → day_number (y + 1) 1 1 ≡ day_number y 12 31 + 1
unfolding day_number
year_end y h = omega arith

-- The months but February and December, whose lengths do not depend on the year.
other_month_end :
    (y m : ℕ)
    → y < 1000000
    → 1 ≤ m
    → m < 12
    → m ≢ 2
    → day_number y (m + 1) 1 ≡ day_number y m (month_length y m) + 1
unfolding day_number
other_month_end y zero h h1 h2 h3 = absurd (omega arith)
other_month_end y (suc zero) h h1 h2 h3 = omega arith
other_month_end y (suc (suc zero)) h h1 h2 h3 = absurd (omega arith)
other_month_end y (suc (suc (suc zero))) h h1 h2 h3 = omega arith
other_month_end y (suc (suc (suc (suc zero)))) h h1 h2 h3 = omega arith
other_month_end y (suc (suc (suc (suc (suc zero))))) h h1 h2 h3 = omega arith
other_month_end y (suc (suc (suc (suc (suc (suc zero)))))) h h1 h2 h3 = omega arith
other_month_end y (suc (suc (suc (suc (suc (suc (suc zero))))))) h h1 h2 h3 = omega arith
other_month_end y (suc (suc (suc (suc (suc (suc (suc (suc zero)))))))) h h1 h2 h3 = omega arith
other_month_end y (suc (suc (suc (suc (suc (suc (suc (suc (suc zero))))))))) h h1 h2 h3 =
    omega arith
other_month_end y (suc (suc (suc (suc (suc (suc (suc (suc (suc (suc zero)))))))))) h h1 h2 h3 =
    omega arith
other_month_end y (suc (suc (suc (suc (suc (suc (suc (suc (suc (suc (suc zero))))))))))) h h1 h2
      h3 =
    omega arith
other_month_end y (suc (suc (suc (suc (suc (suc (suc (suc (suc (suc (suc (suc k)))))))))))) h h1 h2
      h3 =
    absurd (omega arith)

-- From a date of the Gregorian calendar before the year 1000000 to the next one the code's day
-- number grows by one, over month ends, leap days and year ends.
pub day_number-next_date :
    (y m d : ℕ)
    → IsDate y m d
    → let (y', m', d') = next_date y m d in day_number y' m' d' ≡ day_number y m d + 1
day_number-next_date y m d v =
    ground (arith, within_month y m d, other_month_end y m, february_end y, year_end y)

day_number_bounds :
    (y m d : ℕ)
    → 1 ≤ m
    → m ≤ 12
    → d ≤ 31
    → 1858 < y
    → y < 1000000
    → (2400001 ≤ day_number y m d) × (day_number y m d < 400000000)
unfolding day_number
day_number_bounds y m d h1 h2 h3 h4 h5 = omega arith

day_le_31 : (y m d : ℕ) → d ≤ month_length y m → d ≤ 31
day_le_31 y m d h = ground arith

-- The stamp that `now` makes of a date from 1859 on and a time of day is a well-formed stamp,
-- and its day plus 2400001 is the day number of the date.
pub now-IsStamp :
    (c : Civil)
    → IsDate c.year c.month c.day
    → 1858 < c.year
    → c.hour < 24
    → c.minute < 60
    → c.second < 60
    → c.usec < 1000000
    → IsStamp (now c) × ((now c).mjd + 2400001 ≡ day_number c.year c.month c.day)
unfolding now
now-IsStamp c v h0 h1 h2 h3 h4 =
    let (low, high) =
      day_number_bounds c.year c.month c.day v.month_pos v.month_le
        (day_le_31 c.year c.month c.day v.day_le) h0 v.year_le in
    unfold get_mjd get_mpm in (record { in_day = omega arith; fits = omega arith }, omega arith)
