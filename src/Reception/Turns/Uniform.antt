-- ===== src/Reception/Turns/Uniform.antt =====
-- Batches of packets of one length: the tally and its winner.
use mathlib.Core.Bool.{◌&&◌, not}
use data_recorder.Base.{
  ℕ, zero, suc, ◌+◌, ◌≡◌, ◌≢◌, ◌<◌, inl, inr, refl, sym, ap, true, false, List, [], ◌∷◌, ◌==◌, ltb,
  if◌then◌else◌, arith, Bool-cases, ◌∙◌,
}
use data_recorder.Base.Int.{negsuc}
use data_recorder.Reception.Packets.{
  Packet, Batch, Kind, error, empty, tbs, tbt, cor, drx, drx8, oddball, index, sz, kind_of, Tally,
  count, count_sizes, Winner, find_max, winner_of,
}

-- The first `n` packets from index `j` on have the length.
abbrev pub IsUniform : (ℕ → Packet) → ℕ → ℕ → ℕ → Type 0
IsUniform frames size j n = (i : ℕ) → i < n → (frames (j + i)).msg_len ≡ size

pub IsUniform-rest :
    (frames : ℕ → Packet) (size j n : ℕ)
    → IsUniform frames size j (suc n)
    → IsUniform frames size (j + 1) n
IsUniform-rest frames size j n h i lt =
    ap (λ k. (frames k).msg_len) (omega arith) ∙ h (i + 1) (omega (arith, lt))

pub count_uniform :
    (frames : ℕ → Packet) (size : ℕ) (k : Kind) (j n : ℕ) (t : Tally)
    → kind_of size ≡ k
    → IsUniform frames size j n
    → (i : Kind)
    → (count_sizes frames j n t).n i ≡ (if index i == index k then t.n i + n else t.n i)
unfolding count_sizes count
count_uniform frames size k j zero t e h i = elim (Bool-cases (index i == index k)) [
  | inl f ↦ rw f (omega arith)
  | inr f ↦ rw f refl
]
count_uniform frames size k j (suc n) t e h i =
    let first : kind_of (frames j).msg_len ≡ k =
      ap kind_of (ap (λ a. (frames a).msg_len) (omega arith) ∙ h 0 (omega arith)) ∙ e in
    let rest =
      count_uniform frames size k (j + 1) n (count t k j) e (IsUniform-rest frames size j n h) i in
    let moved : (count_sizes frames j (suc n) t).n i
        ≡ (count_sizes frames (j + 1) n (count t k j)).n i =
      ap (λ a. (count_sizes frames (j + 1) n (count t a j)).n i) first in
    moved
    ∙ rest
    ∙ elim (Bool-cases (index i == index k)) [ inl f ↦ rw f (omega arith) | inr f ↦ rw f refl ]

last_uniform :
    (frames : ℕ → Packet) (size : ℕ) (k : Kind) (j n : ℕ) (t : Tally)
    → kind_of size ≡ k
    → IsUniform frames size j (suc n)
    → (count_sizes frames j (suc n) t).last k ≡ j + n
unfolding count_sizes count
last_uniform frames size k j zero t e h =
    let first : kind_of (frames j).msg_len ≡ k =
      ap kind_of (ap (λ a. (frames a).msg_len) (omega arith) ∙ h 0 (omega arith)) ∙ e in
    let same : (index k == index k) ≡ true = ground arith in rw (first, same) (omega arith)
last_uniform frames size k j (suc n) t e h =
    last_uniform frames size k (j + 1) n (count t (kind_of (frames j).msg_len) j) e
      (IsUniform-rest frames size j (suc n) h)
    ∙ omega arith

skip :
    (t : Tally) (cur : ℕ) (k : Kind) (ks : List Kind) (w : Winner)
    → t.n k ≡ 0
    → find_max t cur (k ∷ ks) w ≡ find_max t cur ks w
unfolding find_max
skip t cur k ks w e =
    let lost : ltb w.max_count 0 ≡ false = ground arith in
    let not_taken : (not (index k == cur) && false) ≡ false = ground arith in
    rw (e, lost, not_taken) refl

wins :
    (t : Tally) (cur : ℕ) (k : Kind) (ks : List Kind) (w : Winner)
    → index k ≢ cur
    → w.max_count < t.n k
    → find_max t cur (k ∷ ks) w
      ≡ find_max t cur ks
          (record { max_count = t.n k; new_frame_size = sz k; last_seen = t.last k })
unfolding find_max
wins t cur k ks w apart more =
    let other_kind : (index k == cur) ≡ false = ground (arith, apart) in
    let larger : ltb w.max_count (t.n k) ≡ true = ground (arith, more) in
    rw (other_kind, larger) refl

-- The kinds of the frames of a stream.
pub data IsStream : Kind → Type 0 where
  of_tbs : IsStream tbs
  of_tbt : IsStream tbt
  of_cor : IsStream cor
  of_drx : IsStream drx
  of_drx8 : IsStream drx8

find_max_end : (t : Tally) (cur : ℕ) (w : Winner) → find_max t cur [] w ≡ w
unfolding find_max
find_max_end t cur w = refl

abbrev start : Winner
start = record { max_count = 0; new_frame_size = negsuc 2; last_seen = 0 }

abbrev found : Tally → Kind → Winner
found t k = record { max_count = t.n k; new_frame_size = sz k; last_seen = t.last k }

-- A tally with packets of one kind only.
IsOnly : Tally → Kind → ℕ → Type 0
IsOnly t k m = (i : Kind) → t.n i ≡ (if index i == index k then m else 0)

only_found :
    (t : Tally) (cur m : ℕ) (k : Kind)
    → IsStream k
    → IsOnly t k m
    → 0 < m
    → index k ≢ cur
    → find_max t cur (error ∷ empty ∷ tbs ∷ tbt ∷ cor ∷ drx ∷ drx8 ∷ []) start ≡ found t k
unfolding index IsOnly
only_found t cur m error h n some apart = elim h [ ]
only_found t cur m empty h n some apart = elim h [ ]
only_found t cur m oddball h n some apart = elim h [ ]
only_found t cur m tbs of_tbs n some apart =
    skip t cur error _ _ (n error)
    ∙ skip t cur empty _ _ (n empty)
    ∙ wins t cur tbs _ start apart (omega (arith, n tbs, some))
    ∙ skip t cur tbt _ _ (n tbt)
    ∙ skip t cur cor _ _ (n cor)
    ∙ skip t cur drx _ _ (n drx)
    ∙ skip t cur drx8 _ _ (n drx8)
    ∙ find_max_end t cur _
only_found t cur m tbt of_tbt n some apart =
    skip t cur error _ _ (n error)
    ∙ skip t cur empty _ _ (n empty)
    ∙ skip t cur tbs _ _ (n tbs)
    ∙ wins t cur tbt _ start apart (omega (arith, n tbt, some))
    ∙ skip t cur cor _ _ (n cor)
    ∙ skip t cur drx _ _ (n drx)
    ∙ skip t cur drx8 _ _ (n drx8)
    ∙ find_max_end t cur _
only_found t cur m cor of_cor n some apart =
    skip t cur error _ _ (n error)
    ∙ skip t cur empty _ _ (n empty)
    ∙ skip t cur tbs _ _ (n tbs)
    ∙ skip t cur tbt _ _ (n tbt)
    ∙ wins t cur cor _ start apart (omega (arith, n cor, some))
    ∙ skip t cur drx _ _ (n drx)
    ∙ skip t cur drx8 _ _ (n drx8)
    ∙ find_max_end t cur _
only_found t cur m drx of_drx n some apart =
    skip t cur error _ _ (n error)
    ∙ skip t cur empty _ _ (n empty)
    ∙ skip t cur tbs _ _ (n tbs)
    ∙ skip t cur tbt _ _ (n tbt)
    ∙ skip t cur cor _ _ (n cor)
    ∙ wins t cur drx _ start apart (omega (arith, n drx, some))
    ∙ skip t cur drx8 _ _ (n drx8)
    ∙ find_max_end t cur _
only_found t cur m drx8 of_drx8 n some apart =
    skip t cur error _ _ (n error)
    ∙ skip t cur empty _ _ (n empty)
    ∙ skip t cur tbs _ _ (n tbs)
    ∙ skip t cur tbt _ _ (n tbt)
    ∙ skip t cur cor _ _ (n cor)
    ∙ skip t cur drx _ _ (n drx)
    ∙ wins t cur drx8 _ start apart (omega (arith, n drx8, some))
    ∙ find_max_end t cur _

pub winner_uniform :
    (batch : Batch) (more size : ℕ) (k : Kind)
    → IsStream k
    → kind_of size ≡ k
    → IsUniform batch.frames size 0 (suc more)
    → index k ≢ index (kind_of batch.fsize)
    → let w = winner_of batch (suc more) in (w.new_frame_size ≡ sz k) × (w.last_seen ≡ more)
unfolding winner_of IsOnly
winner_uniform batch more size k stream e u apart =
    let t0 : Tally = record { n = λ _. 0; last = λ _. 0 } in
    let t = count_sizes batch.frames 0 (suc more) t0 in
    let only : IsOnly t k (0 + suc more) =
      λ i. count_uniform batch.frames size k 0 (suc more) t0 e u i in
    let w =
      only_found t (index (kind_of batch.fsize)) (0 + suc more) k stream only (omega arith) apart in
    (
      ap (λ w. w.new_frame_size) w,
      ap (λ w. w.last_seen) w ∙ last_uniform batch.frames size k 0 more t0 e u ∙ omega arith,
    )

pub not_size :
    (n fsize : ℕ) (k : Kind)
    → kind_of n ≡ k
    → index k ≢ index (kind_of fsize)
    → (n == fsize) ≡ false
not_size n fsize k e apart = elim (Bool-cases (n == fsize)) [
  | inl same ↦
      let eq : n ≡ fsize = ground (arith, same) in absurd (apart (ap index (sym e ∙ ap kind_of eq)))
  | inr other ↦ other
]
