-- ===== src/Streaming/Recorder/Sids.antt =====
-- The check of the sequence numbers in a ticket's frames.
use data_recorder.Base.{
  ℕ, ◌+◌, ◌≡◌, ◌↔◌, refl, List, [], ◌∷◌, ◌++◌, ◌==◌, arith, Bool-cases, inl, inr, word,
}
use data_recorder.Streaming.Recorder.{do_sid_check}

-- Each number is one above the one before it, after 2^64 - 1 comes 0.
abbrev pub IsConsecutive : ℕ → List ℕ → Type 0
IsConsecutive last [] = Unit {0}
IsConsecutive last (sid ∷ sids) = (sid ≡ word (last + 1)) × IsConsecutive sid sids

abbrev pub last_of : ℕ → List ℕ → ℕ
last_of last [] = last
last_of last (sid ∷ sids) = last_of sid sids

-- The check logs no gap exactly if the first number follows the last one seen and each follows
-- the one before it, and it keeps the last number for the next ticket.
pub do_sid_check_lem :
    (last : ℕ) (sids : List ℕ)
    → (((do_sid_check last sids).1 ≡ []) ↔ IsConsecutive last sids)
      × ((do_sid_check last sids).0 ≡ last_of last sids)
unfolding do_sid_check
do_sid_check_lem last [] = ((λ _. tt, λ _. refl), refl)
do_sid_check_lem last (sid ∷ sids) =
    let (ih, kept) = do_sid_check_lem sid sids in
    elim (Bool-cases (sid == word (last + 1))) [
      | inl e ↦
          let next : sid ≡ word (last + 1) = ground (arith, e) in
          rw (e, do_sid_check) ((λ h. (next, ih.0 h), λ h. ih.1 h.1), kept)
      | inr e ↦
          rw (e, do_sid_check) ((λ h. absurd (cc), λ h. absurd (ground (arith, e, h.0))), kept)
    ]

-- Checking two tickets one after the other is checking the numbers of both at once.
pub do_sid_check-append :
    (last : ℕ) (first second : List ℕ)
    → let (last', gaps) = do_sid_check last first in
      let (last'', gaps') = do_sid_check last' second in
      do_sid_check last (first ++ second) ≡ (last'', gaps ++ gaps')
unfolding do_sid_check
do_sid_check-append last [] second = refl
do_sid_check-append last (sid ∷ first) second = ground (arith, do_sid_check-append sid first second)
