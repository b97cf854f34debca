-- ===== src/Time/Slots.antt =====
-- `Time::overlaps` and the two `Time::compare` functions, against the interval of milliseconds that
-- a slot stands for.
use data_recorder.Base.{ℕ, ◌+◌, ◌^◌, ◌≤◌, ◌<◌, ◌≡◌, ◌≢◌, ◌↔◌, ◌⊎◌, Ordering, arith, true}
use data_recorder.Time.{
  TimeStamp, TimeSlot, forever, not_after, add_time, overlaps, compare_slots, compare_slot_stamp,
}
use data_recorder.Time.Stamps.{IsStamp, millis, compare_timestamps-linear, add_time_lem}

-- A slot without end, or one whose end does not pass the range of `size_t`.
pub record IsSlot (s : TimeSlot) : Type 0 where
  pub start : IsStamp s.start
  pub fits : (s.duration ≡ forever) ⊎ (millis s.start + s.duration < 2 ^ 64)

-- Milliseconds of the start, and of the end where there is one.
abbrev pub first : TimeSlot → ℕ
first s = millis s.start

abbrev pub last : TimeSlot → ℕ
last s = millis s.start + s.duration

-- The slot has an end, and it lies before the start of the other.
abbrev pub EndsBefore : TimeSlot → TimeSlot → Type 0
EndsBefore a b = (a.duration ≢ forever) × (last a < first b)

pub not_after-le :
    (a b : TimeStamp) → IsStamp a → IsStamp b → (not_after a b ≡ true) ↔ (millis a ≤ millis b)
unfolding not_after
not_after-le a b va vb = ground (arith, compare_timestamps-linear a b va vb)

-- For well-formed slots, `compare` is -1 exactly if the first has an end that lies before the
-- start of the second, and 1 exactly if the second has one before the start of the first.
pub compare_slots_lem :
    (a b : TimeSlot)
    → IsSlot a
    → IsSlot b
    → ((compare_slots a b ≡ Ordering.lt) ↔ EndsBefore a b)
      × ((compare_slots a b ≡ Ordering.gt) ↔ EndsBefore b a)
unfolding compare_slots
compare_slots_lem a b va vb = ground (
  arith,
  compare_timestamps-linear a.start b.start va.start vb.start,
  add_time_lem a.start a.duration va.start,
  add_time_lem b.start b.duration vb.start,
  compare_timestamps-linear (add_time a.start a.duration) b.start,
  compare_timestamps-linear (add_time b.start b.duration) a.start,
)

-- Two well-formed slots overlap exactly if one of them has no end, or if each starts no later
-- than the other ends.
pub overlaps_iff :
    (a b : TimeSlot)
    → IsSlot a
    → IsSlot b
    → (overlaps a b ≡ true) ↔ (
        (a.duration ≡ forever) ⊎ (b.duration ≡ forever) ⊎ ((first a ≤ last b) × (first b ≤ last a)))
unfolding overlaps
overlaps_iff a b va vb = ground (
  arith,
  compare_timestamps-linear a.start b.start va.start vb.start,
  add_time_lem a.start a.duration va.start,
  add_time_lem b.start b.duration vb.start,
  compare_timestamps-linear (add_time a.start a.duration) b.start,
  compare_timestamps-linear (add_time b.start b.duration) a.start,
  compare_timestamps-linear a.start (add_time b.start b.duration),
  compare_timestamps-linear (add_time a.start a.duration) (add_time b.start b.duration),
)

-- For a slot with a well-formed start and a well-formed stamp, `compare` is -1 exactly if the
-- stamp lies before the start of the slot, and it is never 1.
pub compare_slot_stamp_lem :
    (a : TimeSlot) (b : TimeStamp)
    → IsStamp a.start
    → IsStamp b
    → ((compare_slot_stamp a b ≡ Ordering.lt) ↔ (millis b < first a))
      × (compare_slot_stamp a b ≢ Ordering.gt)
unfolding compare_slot_stamp
compare_slot_stamp_lem a b va vb = ground (arith, compare_timestamps-linear b a.start vb va)
