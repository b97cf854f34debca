-- ===== src/Reception/Turns/Locks.antt =====
-- How the receiver follows a stream that changes to frames of another kind.
use mathlib.Core.Bool.{◌&&◌, not}
use data_recorder.Base.{
  ℕ, suc, ◌≡◌, ◌≢◌, inl, inr, refl, sym, ap, Bool, true, false, [], ◌∷◌, ◌==◌, if◌then◌else◌,
  returns, arith, Exit, ◌/◌, Bool-cases, ◌∙◌,
}
use data_recorder.Reception.Formats.{
  FormatName, default_drx, default_drx8, default_tbt, default_cor, drx_filt, drx8_filt,
  get_format_by_name,
}
use data_recorder.Reception.Receiver.{
  Receiver, notify_fill, return_empty, reset, initial_buffer_size, ideal_transfer_size,
  set_new_fmt_drx, set_new_fmt_tbs, by_dec_factor, tbs_name, bswap16,
}
use data_recorder.Reception.Packets.{
  Packet, Batch, check, Check, unchecked, Kind, error, empty, tbs, tbt, cor, drx, drx8, oddball,
  index, sz, kind_of, winner_of, is_tbs, is_drx, add_lengths,
}
use data_recorder.Reception.Turns.{
  Turn, change_mode, judge_winner, is_unset, is_size, switch_format, if_set, follow, conclude,
  on_packets, turn, packets, post,
}
use data_recorder.Reception.Turns.Settles.{IsSized, follow_lem, change_mode_lem}
use data_recorder.Reception.Turns.Checks.{follow_stays, check_first, check_uniform}
use data_recorder.Reception.Turns.Uniform.{IsUniform, winner_uniform, not_size, IsStream}

-- The format that a packet of the kind asks for.
unfoldable pub announced : Kind → Packet → FormatName
announced tbs f = tbs_name (bswap16 f.n_chan)
announced tbt f = default_tbt
announced cor f = default_cor
announced _ f =
    if f.drx_is_adp
    then by_dec_factor (bswap16 f.dec_factor) drx8_filt default_drx8
    else by_dec_factor (bswap16 f.dec_factor) drx_filt default_drx

-- A turn that returns a receiver with the format.
abbrev Sets : FormatName → Exit Turn → Type 0
Sets name e =
    (t : Turn) × (e ≡ returns t)
    × (t.calls
        ≡ return_empty
          ∷ reset initial_buffer_size (get_format_by_name name).frame_size
              (ideal_transfer_size / (get_format_by_name name).frame_size)
          ∷ [])
    × (t.receiver.current_format ≡ get_format_by_name name)
    × IsSized t.receiver

change_mode-Sets :
    (r : Receiver) (name : FormatName)
    → IsSized r
    → Sets name (change_mode (record r { new_format = get_format_by_name name }))
change_mode-Sets r name s = (
  _,
  change_mode_lem r name s,
  rw (s.transfer, s.buffer) refl,
  refl,
  record { transfer = s.transfer; buffer = s.buffer },
)

switch_format-Sets :
    (r : Receiver) (k : Kind) (f : Packet)
    → IsStream k
    → IsSized r
    → Sets (announced k f) (switch_format r (sz k) f)
unfolding switch_format announced if_set set_new_fmt_drx set_new_fmt_tbs sz is_tbs is_drx
switch_format-Sets r error f h s = elim h [ ]
switch_format-Sets r empty f h s = elim h [ ]
switch_format-Sets r oddball f h s = elim h [ ]
switch_format-Sets r tbs f h s = change_mode-Sets r _ s
switch_format-Sets r tbt f h s = change_mode-Sets r _ s
switch_format-Sets r cor f h s = change_mode-Sets r _ s
switch_format-Sets r drx f h s = change_mode-Sets r _ s
switch_format-Sets r drx8 f h s = change_mode-Sets r _ s

sz_apart :
    (fsize : ℕ) (k : Kind)
    → IsStream k
    → index k ≢ index (kind_of fsize)
    → (is_unset (sz k) ≡ false) × (is_size (sz k) fsize ≡ false)
unfolding sz is_unset is_size kind_of is_tbs
sz_apart fsize error h apart = elim h [ ]
sz_apart fsize empty h apart = elim h [ ]
sz_apart fsize oddball h apart = elim h [ ]
sz_apart fsize tbs h apart = (refl, not_size _ fsize tbs refl apart)
sz_apart fsize tbt h apart = (refl, not_size _ fsize tbt refl apart)
sz_apart fsize cor h apart = (refl, not_size _ fsize cor refl apart)
sz_apart fsize drx h apart = (refl, not_size _ fsize drx refl apart)
sz_apart fsize drx8 h apart = (refl, not_size _ fsize drx8 refl apart)

judge_winner-Sets :
    (r : Receiver) (batch : Batch) (more size : ℕ) (k : Kind)
    → IsSized r
    → IsStream k
    → kind_of size ≡ k
    → IsUniform batch.frames size 0 (suc more)
    → index k ≢ index (kind_of batch.fsize)
    → Sets (announced k (batch.frames more)) (judge_winner r batch (winner_of batch (suc more)))
unfolding judge_winner
judge_winner-Sets r batch more size k s stream e u apart =
    let (frame, last) = winner_uniform batch more size k stream e u apart in
    let (set, other_size) = sz_apart batch.fsize k stream apart in
    rw (frame, last, set, other_size) (switch_format-Sets r k (batch.frames more) stream s)

follow-current_format :
    (r : Receiver) (fsize : ℕ) (c : Check) → (follow r fsize c).0.current_format ≡ r.current_format
unfolding follow set_new_fmt_drx set_new_fmt_tbs
follow-current_format r fsize c =
    elim (Bool-cases (is_drx fsize && c.drx_rate_change && not c.look_more)) [
      | inl e ↦ rw e (elim (Bool-cases (is_tbs fsize && c.tbs_chan_change && not c.look_more)) [
        | inl f ↦ rw f refl
        | inr f ↦ rw f refl
      ])
      | inr e ↦ rw e (elim (Bool-cases (is_tbs fsize && c.tbs_chan_change && not c.look_more)) [
        | inl f ↦ rw f refl
        | inr f ↦ rw f refl
      ])
    ]

changes :
    (r : Receiver) (batch : Batch) (more size : ℕ) (k : Kind)
    → IsSized r
    → IsStream k
    → kind_of size ≡ k
    → IsUniform batch.frames size 0 (suc more)
    → batch.fsize ≡ r.current_format.frame_size
    → index k ≢ index (kind_of batch.fsize)
    → Sets (announced k (batch.frames more)) (on_packets r batch (suc more))
unfolding on_packets conclude
changes r batch more size k s stream e u current apart =
    let r1 = record r { bytes_received = add_lengths batch.frames 0 (suc more) r.bytes_received } in
    let fsize = r.current_format.frame_size in
    let c = check r1 fsize batch.frames 0 (suc more) unchecked in
    let other_size : ((batch.frames 0).msg_len == fsize) ≡ false =
      not_size _ fsize k (ap kind_of (u 0 (omega arith)) ∙ e) (rw (sym current) apart) in
    let more_needed = check_first r1 fsize batch.frames more unchecked other_size in
    rw (follow_stays r1 fsize c more_needed, more_needed)
      (judge_winner-Sets r1 batch more size k (record { transfer = s.transfer; buffer = s.buffer })
        stream e u apart)

conclude_posts :
    (followed : Receiver × Bool) (look_more : Bool) (batch : Batch) (cnt : ℕ)
    → followed.1 ≡ true
    → look_more ≡ false
    → conclude followed look_more batch cnt ≡ returns (post followed.0 cnt)
unfolding conclude
conclude_posts (r, ok) look_more batch cnt e f = rw (e, f) refl

posts :
    (r : Receiver) (batch : Batch) (cnt : ℕ)
    → IsSized r
    → IsUniform batch.frames r.current_format.frame_size 0 cnt
    → (t : Turn) × (on_packets r batch cnt ≡ returns t)
      × (t.calls ≡ notify_fill cnt ∷ [])
      × (t.receiver.current_format ≡ r.current_format)
unfolding on_packets post unchecked
posts r batch cnt s u =
    let r1 = record r { bytes_received = add_lengths batch.frames 0 cnt r.bytes_received } in
    let fsize = r.current_format.frame_size in
    let c = check r1 fsize batch.frames 0 cnt unchecked in
    let common : c.look_more ≡ false = check_uniform r1 fsize batch.frames 0 cnt unchecked u in
    let (ok, _) = follow_lem r1 fsize c (record { transfer = s.transfer; buffer = s.buffer }) in
    (
      post (follow r1 fsize c).0 cnt,
      conclude_posts (follow r1 fsize c) c.look_more batch cnt ok common,
      refl,
      follow-current_format r1 fsize c,
    )

-- A receiver with the sizes that `initialize` sets, whose tickets are for its current format, and a
-- stream that changes to packets of another kind, all of the size of a TBS, TBT, COR, DRX or DRX8
-- frame: the turn with the first batch of them returns its ticket, resets the buffer for the format that
-- the batch's last packet announces, and takes this format; the next turn, if the packets have
-- this format's frame size, posts all of them and keeps the format.
pub turn_locks :
    (r : Receiver) (batch next : Batch) (more m size : ℕ) (k : Kind)
    → IsSized r
    → IsStream k
    → kind_of size ≡ k
    → IsUniform batch.frames size 0 (suc more)
    → batch.fsize ≡ r.current_format.frame_size
    → index k ≢ index (kind_of batch.fsize)
    → let f = get_format_by_name (announced k (batch.frames more)) in
      IsUniform next.frames f.frame_size 0 (suc m)
      → (t t' : Turn) × (turn r (packets batch more) ≡ returns t)
        × (t.calls
            ≡ return_empty
              ∷ reset initial_buffer_size f.frame_size (ideal_transfer_size / f.frame_size)
              ∷ [])
        × (t.receiver.current_format ≡ f)
        × (turn t.receiver (packets next m) ≡ returns t')
        × (t'.calls ≡ notify_fill (suc m) ∷ [])
        × (t'.receiver.current_format ≡ f)
unfolding turn
turn_locks r batch next more m size k s stream e u current apart v =
    let (t, first, calls, set, s') = changes r batch more size k s stream e u current apart in
    let (t', second, posted, kept) = posts t.receiver next (suc m) s' (rw set v) in
    (t, t', first, calls, set, second, posted, kept ∙ set)
