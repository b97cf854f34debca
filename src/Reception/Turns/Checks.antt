-- ===== src/Reception/Turns/Checks.antt =====
-- The quick check of the packets, where they all have the current length, or the first one has not.
use mathlib.Core.Bool.{◌&&◌, not}
use data_recorder.Base.{
  ℕ, zero, suc, ◌+◌, ◌≡◌, inl, inr, refl, ap, true, false, ◌==◌, arith, Bool-cases, ◌∙◌,
}
use data_recorder.Reception.Receiver.{Receiver}
use data_recorder.Reception.Packets.{Packet, check_header, check, Check, is_tbs, is_drx}
use data_recorder.Reception.Turns.{follow}
use data_recorder.Reception.Turns.Uniform.{IsUniform, IsUniform-rest}

pub follow_stays :
    (r : Receiver) (fsize : ℕ) (c : Check) → c.look_more ≡ true → follow r fsize c ≡ (r, true)
unfolding follow
follow_stays r fsize c e =
    let no_drx : (is_drx fsize && c.drx_rate_change && not c.look_more) ≡ false =
      ground (arith, e) in
    let no_tbs : (is_tbs fsize && c.tbs_chan_change && not c.look_more) ≡ false =
      ground (arith, e) in
    rw (no_drx, no_tbs) refl

pub check_first :
    (r : Receiver) (fsize : ℕ) (frames : ℕ → Packet) (more : ℕ) (c : Check)
    → ((frames 0).msg_len == fsize) ≡ false
    → (check r fsize frames 0 (suc more) c).look_more ≡ true
unfolding check
check_first r fsize frames more c e = rw e refl

check_header-look_more :
    (r : Receiver) (fsize : ℕ) (p : Packet) (c : Check)
    → (check_header r fsize p c).look_more ≡ c.look_more
unfolding check_header
check_header-look_more r fsize p c = elim (Bool-cases (is_drx fsize)) [
  | inl e ↦ rw e refl
  | inr e ↦ rw e (elim (Bool-cases (is_tbs fsize)) [ inl f ↦ rw f refl | inr f ↦ rw f refl ])
]

pub check_uniform :
    (r : Receiver) (fsize : ℕ) (frames : ℕ → Packet) (j n : ℕ) (c : Check)
    → IsUniform frames fsize j n
    → (check r fsize frames j n c).look_more ≡ c.look_more
unfolding check
check_uniform r fsize frames j zero c u = refl
check_uniform r fsize frames j (suc n) c u =
    let first : (frames j).msg_len ≡ fsize =
      ap (λ a. (frames a).msg_len) (omega arith) ∙ u 0 (omega arith) in
    let same : ((frames j).msg_len == fsize) ≡ true = ground (arith, first) in
    rw same (
      check_uniform r fsize frames (j + 1) n _ (IsUniform-rest frames fsize j n u)
      ∙ check_header-look_more r fsize (frames j) c)
