-- ===== src/Tests/Queues.antt =====
-- The queue of DROS2/Actors/OpsQueue.h with three recordings of an hour.
use mathlib.Core.List.{Memᴰ}
use data_recorder.Base.{ℕ, ◌≡◌, ◌↔◌, inr, arith, none, some, refl, [], ◌∷◌}
use data_recorder.Time.{TimeSlot, compare_slots, compare_timestamps, add_time, overlaps}
use data_recorder.Schedule.Operation.{Operation}
use data_recorder.Schedule.Queue.{insert, find_conflict}
use data_recorder.Schedule.Queue.Order.{
  Apart, HasSlot, IsOrdered, Clear, insert-none_iff, insert_conflict,
}
use data_recorder.Schedule.Queue.Find.{insert-find_conflict}

-- An hour of day 60000, from a millisecond on.
abbrev pub hour_from : ℕ → TimeSlot
hour_from mpm = record { start = record { mjd = 60000; mpm = mpm }; duration = 3600000 }

abbrev pub recording_at : ℕ → ℕ → Operation ℕ
recording_at reference mpm = record {
  reference = reference;
  ts = hour_from mpm;
  ts_padded = hour_from mpm;
  body = 0;
}

abbrev pub early : Operation ℕ
early = recording_at 1 0

abbrev pub noon : Operation ℕ
noon = recording_at 2 43200000

abbrev pub late : Operation ℕ
late = recording_at 3 72000000

-- In the way of `noon`.
abbrev pub half_past : Operation ℕ
half_past = recording_at 4 45000000

pub early-HasSlot : HasSlot early
early-HasSlot = record {
  start = record { in_day = omega arith; fits = omega arith };
  fits = inr (omega arith);
}

pub noon-HasSlot : HasSlot noon
noon-HasSlot = record {
  start = record { in_day = omega arith; fits = omega arith };
  fits = inr (omega arith);
}

pub late-HasSlot : HasSlot late
late-HasSlot = record {
  start = record { in_day = omega arith; fits = omega arith };
  fits = inr (omega arith);
}

pub half_past-HasSlot : HasSlot half_past
half_past-HasSlot = record {
  start = record { in_day = omega arith; fits = omega arith };
  fits = inr (omega arith);
}

pub two-IsOrdered : IsOrdered (early ∷ late ∷ [])
two-IsOrdered =
    (early-HasSlot, ((λ h. absurd (omega (arith, h)), omega arith), tt), (late-HasSlot, tt, tt))

pub noon-IsOrdered : IsOrdered (noon ∷ [])
noon-IsOrdered = (noon-HasSlot, tt, tt)

insert-none_iff_example :
    ((insert noon (early ∷ late ∷ [])).0 ≡ none) ↔ Clear noon (early ∷ late ∷ [])
insert-none_iff_example = insert-none_iff noon (early ∷ late ∷ []) noon-HasSlot two-IsOrdered

accepted : (insert noon (early ∷ late ∷ [])).0 ≡ none
unfolding insert compare_slots compare_timestamps add_time
accepted = refl

refused : (insert half_past (noon ∷ [])).0 ≡ some noon
unfolding insert compare_slots compare_timestamps add_time
refused = refl

insert_conflict_example :
    ((insert half_past (noon ∷ [])).1 ≡ noon ∷ [])
    × Memᴰ noon (noon ∷ [])
    × ¬ Apart half_past.ts_padded noon.ts_padded
insert_conflict_example =
    insert_conflict half_past noon (noon ∷ []) half_past-HasSlot noon-IsOrdered refused

free : find_conflict noon.ts_padded (early ∷ late ∷ []) ≡ none
unfolding find_conflict overlaps compare_timestamps add_time
free = refl

insert-find_conflict_example : (insert noon (early ∷ late ∷ [])).0 ≡ none
insert-find_conflict_example =
    insert-find_conflict noon (early ∷ late ∷ []) noon-HasSlot two-IsOrdered free
