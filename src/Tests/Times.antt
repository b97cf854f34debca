-- ===== src/Tests/Times.antt =====
-- Stamps, slots and dates of DROS2/System/Time.h.
use data_recorder.Base.{◌+◌, ◌≡◌, ◌≤◌, ◌↔◌, ◌⊎◌, inl, inr, arith, true, Ordering, refl}
use data_recorder.Time.{TimeStamp, TimeSlot, Civil, forever, compare_slots, overlaps, day_number}
use data_recorder.Time.Stamps.{IsStamp}
use data_recorder.Time.Slots.{IsSlot, first, last, EndsBefore, compare_slots_lem, overlaps_iff}
use data_recorder.Time.Calendar.{IsDate, next_date, day_number-next_date}

abbrev morning : TimeStamp
morning = record { mjd = 60000; mpm = 3600000 }

abbrev night : TimeStamp
night = record { mjd = 60000; mpm = 86399000 }

morning-IsStamp : IsStamp morning
morning-IsStamp = record { in_day = omega arith; fits = omega arith }

night-IsStamp : IsStamp night
night-IsStamp = record { in_day = omega arith; fits = omega arith }

abbrev one_hour : TimeSlot
one_hour = record { start = morning; duration = 3600000 }

abbrev endless : TimeSlot
endless = record { start = night; duration = forever }

one_hour-IsSlot : IsSlot one_hour
one_hour-IsSlot = record { start = morning-IsStamp; fits = inr (omega arith) }

endless-IsSlot : IsSlot endless
endless-IsSlot = record { start = night-IsStamp; fits = inl refl }

compare_slots_example :
    ((compare_slots one_hour endless ≡ Ordering.lt) ↔ EndsBefore one_hour endless)
    × ((compare_slots one_hour endless ≡ Ordering.gt) ↔ EndsBefore endless one_hour)
compare_slots_example = compare_slots_lem one_hour endless one_hour-IsSlot endless-IsSlot

overlaps_example : (overlaps one_hour endless ≡ true) ↔ (
    (one_hour.duration ≡ forever)
    ⊎ (endless.duration ≡ forever)
    ⊎ ((first one_hour ≤ last endless) × (first endless ≤ last one_hour)))
overlaps_example = overlaps_iff one_hour endless one_hour-IsSlot endless-IsSlot

leap_day-IsDate : IsDate 2024 2 29
leap_day-IsDate = ground arith

day_number_example :
    let (y', m', d') = next_date 2024 2 29 in day_number y' m' d' ≡ day_number 2024 2 29 + 1
day_number_example = day_number-next_date 2024 2 29 leap_day-IsDate

abbrev leap_noon : Civil
leap_noon = record { year = 2024; month = 2; day = 29; hour = 12; minute = 0; second = 0; usec = 0 }
