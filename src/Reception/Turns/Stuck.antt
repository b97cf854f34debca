-- ===== src/Reception/Turns/Stuck.antt =====
-- A stream that changes to frames of another size and the same kind.
use mathlib.Core.Bool.{◌&&◌, not}
use data_recorder.Base.{
  ℕ, suc, ◌≡◌, ◌≢◌, ◌⊎◌, inl, inr, refl, ap, false, List, [], ◌∷◌, ◌==◌, ltb, returns, arith,
  Bool-cases, ◌∙◌,
}
use data_recorder.Base.Int.{negsuc}
use data_recorder.Reception.Receiver.{Receiver}
use data_recorder.Reception.Packets.{
  Batch, check, unchecked, Kind, index, kind_of, Tally, count_sizes, Winner, find_max, winner_of,
  add_lengths,
}
use data_recorder.Reception.Turns.{
  cancel, judge_winner, is_unset, conclude, on_packets, turn, packets,
}
use data_recorder.Reception.Turns.Checks.{follow_stays, check_first}
use data_recorder.Reception.Turns.Uniform.{IsUniform, count_uniform}

none_found :
    (t : Tally) (cur : ℕ) (ks : List Kind) (w : Winner)
    → ((i : Kind) → (index i ≡ cur) ⊎ (t.n i ≡ 0))
    → find_max t cur ks w ≡ w
unfolding find_max
none_found t cur [] w h = refl
none_found t cur (k ∷ ks) w h =
    let lost : (not (index k == cur) && ltb w.max_count (t.n k)) ≡ false = elim (h k) [
      | inl e ↦ ground (arith, e)
      | inr e ↦ ground (arith, e)
    ] in
    rw lost (none_found t cur ks w h)

winner_same :
    (batch : Batch) (cnt size : ℕ)
    → IsUniform batch.frames size 0 cnt
    → kind_of batch.fsize ≡ kind_of size
    → (winner_of batch cnt).new_frame_size ≡ negsuc 2
unfolding winner_of
winner_same batch cnt size u same =
    let t0 : Tally = record { n = λ _. 0; last = λ _. 0 } in
    let t = count_sizes batch.frames 0 cnt t0 in
    let counts = count_uniform batch.frames size (kind_of size) 0 cnt t0 refl u in
    ap (λ w. w.new_frame_size)
      (none_found t (index (kind_of batch.fsize)) _ _ (λ i.
        elim (Bool-cases (index i == index (kind_of size))) [
          | inl e ↦ inl (rw same (ground (arith, e)))
          | inr e ↦ inr (counts i ∙ rw e refl)
        ]))

-- When a stream changes to packets of another size that has the same kind as the current format's
-- frames, as TBS frames of another number of channels have: the turn returns its ticket, and nothing
-- of the receiver changes but the count of received bytes.
pub turn_stuck :
    (r : Receiver) (batch : Batch) (more size : ℕ)
    → batch.fsize ≡ r.current_format.frame_size
    → IsUniform batch.frames size 0 (suc more)
    → kind_of batch.fsize ≡ kind_of size
    → size ≢ batch.fsize
    → turn r (packets batch more)
      ≡ returns (
          cancel
            (record r { bytes_received = add_lengths batch.frames 0 (suc more) r.bytes_received }))
unfolding turn on_packets conclude judge_winner is_unset
turn_stuck r batch more size current u same apart =
    let r1 = record r { bytes_received = add_lengths batch.frames 0 (suc more) r.bytes_received } in
    let fsize = r.current_format.frame_size in
    let first : (batch.frames 0).msg_len ≡ size = u 0 (omega arith) in
    let other_size : ((batch.frames 0).msg_len == fsize) ≡ false =
      ground (arith, first, current, apart) in
    let more_needed = check_first r1 fsize batch.frames more unchecked other_size in
    let unset = winner_same batch (suc more) size u same in
    let c = check r1 fsize batch.frames 0 (suc more) unchecked in
    rw (follow_stays r1 fsize c more_needed, more_needed, unset) refl
