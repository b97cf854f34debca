-- ===== src/Reception/Turns/Settles.antt =====
-- What a turn of the receiver does with its ticket, and that a mode change succeeds with the receiver's sizes.
use mathlib.Core.Bool.{◌&&◌, not}
use data_recorder.Base.{
  ℕ, suc, ◌+◌, ◌*◌, ◌/◌, ◌≡◌, ◌⊎◌, inl, inr, refl, Bool, true, false, List, [], ◌∷◌, ◌==◌, ltb,
  word, Exit, returns, Bool-cases,
}
use data_recorder.Base.Int.{ℤ, negsuc}
use data_recorder.Reception.Formats.{
  FormatName, default_drx, default_drx8, default_tbs, default_tbt, default_cor, tbs_filt_7,
  tbs_filt_8, tbs_filt_9, drx_filt, drx8_filt, get_format_by_name, data_format,
}
use data_recorder.Reception.Receiver.{
  Receiver, ideal_transfer_size, initial_buffer_size, Call, notify_fill, return_empty, reset,
  uninit, finalize, do_reset, set_new_fmt_drx, set_new_fmt_tbs,
}
use data_recorder.Reception.Packets.{
  Packet, Batch, find_max, Winner, Tally, Kind, sz, index, is_tbs, is_drx, winner_of, Check, check,
  unchecked, add_lengths, error, empty, tbs, tbt, cor, drx, drx8, oddball,
}
use data_recorder.Reception.Turns.{
  Next, resume_reception, abort_reception, Turn, change_mode, after_reset, if_set, switch_format,
  judge_winner, cancel, post, abort, on_packets, turn, Received, nothing, failed, packets, follow,
  is_size, is_unset, conclude,
}

-- The number of times that calls give the ticket away.
unfoldable pub settled : List Call → ℕ
settled [] = 0
settled (notify_fill n ∷ calls) = 1 + settled calls
settled (return_empty ∷ calls) = 1 + settled calls
settled (reset size fsize n ∷ calls) = settled calls
settled (uninit ∷ calls) = settled calls
settled (finalize ∷ calls) = settled calls

-- The sizes that `initialize` sets and nothing changes.
pub record IsSized (r : Receiver) : Type 0 where
  pub transfer : r.new_transfer_size ≡ ideal_transfer_size
  pub buffer : r.new_buf_size ≡ initial_buffer_size

abbrev pub Settles : Next → Exit Turn → Type 0
Settles next e =
    (t : Turn) × (e ≡ returns t) × (settled t.calls ≡ 1) × IsSized t.receiver × (t.next ≡ next)

-- A frame size with which a reset succeeds.
abbrev Fits : ℕ → Type 0
Fits fsize =
    ((fsize == 0) ≡ false)
    × ((word (ideal_transfer_size / fsize * fsize) == 0) ≡ false)
    × (ltb (initial_buffer_size / word (ideal_transfer_size / fsize * fsize)) 3 ≡ false)

known-Fits : (name : FormatName) → Fits (get_format_by_name name).frame_size
unfolding get_format_by_name data_format
known-Fits default_drx = (refl, refl, refl)
known-Fits default_tbt = (refl, refl, refl)
known-Fits default_tbs = (refl, refl, refl)
known-Fits default_cor = (refl, refl, refl)
known-Fits default_drx8 = (refl, refl, refl)
known-Fits tbs_filt_7 = (refl, refl, refl)
known-Fits tbs_filt_8 = (refl, refl, refl)
known-Fits tbs_filt_9 = (refl, refl, refl)
known-Fits (drx_filt f) = (refl, refl, refl)
known-Fits (drx8_filt f) = (refl, refl, refl)

pub change_mode_lem :
    (r : Receiver) (name : FormatName)
    → IsSized r
    → let f = get_format_by_name name in
      let r' = record r { new_format = f } in
      change_mode r'
      ≡ returns (record {
        receiver = record r' {
          bufsize = r.new_buf_size;
          current_format = f;
          transfer_size = r.new_transfer_size;
          current_drx_dec_factor = f.dec_factor;
          current_is_drx8 = f.bit_depth == 8;
          reset_required = false;
        };
        calls =
            return_empty
            ∷ reset r.new_buf_size f.frame_size (r.new_transfer_size / f.frame_size)
            ∷ [];
        next = resume_reception;
      })
unfolding change_mode do_reset after_reset
change_mode_lem r name s =
    let (framed, fixed, enough) = known-Fits name in
    rw (s.transfer, s.buffer, framed, fixed, enough) refl

change_mode-Settles :
    (r : Receiver) (name : FormatName)
    → IsSized r
    → Settles resume_reception (change_mode (record r { new_format = get_format_by_name name }))
unfolding settled
change_mode-Settles r name s =
    (_, change_mode_lem r name s, refl, record { transfer = s.transfer; buffer = s.buffer }, refl)

switch_format-Settles :
    (r : Receiver) (k : Kind) (f : Packet)
    → IsSized r
    → Settles resume_reception (switch_format r (sz k) f)
unfolding switch_format settled cancel if_set set_new_fmt_drx set_new_fmt_tbs sz is_tbs is_drx
switch_format-Settles r error f s = (_, refl, refl, s, refl)
switch_format-Settles r empty f s = (_, refl, refl, s, refl)
switch_format-Settles r tbs f s = change_mode-Settles r _ s
switch_format-Settles r tbt f s = change_mode-Settles r _ s
switch_format-Settles r cor f s = change_mode-Settles r _ s
switch_format-Settles r drx f s = elim f.drx_is_adp [
  | true ↦ change_mode-Settles r _ s
  | false ↦ change_mode-Settles r _ s
]
switch_format-Settles r drx8 f s = elim f.drx_is_adp [
  | true ↦ change_mode-Settles r _ s
  | false ↦ change_mode-Settles r _ s
]
switch_format-Settles r oddball f s = (_, refl, refl, s, refl)

-- -3 or an entry of `sz`.
abbrev IsFound : ℤ → Type 0
IsFound z = (z ≡ negsuc 2) ⊎ ((k : Kind) × (z ≡ sz k))

find_max-IsFound :
    (t : Tally) (cur : ℕ) (ks : List Kind) (w : Winner)
    → IsFound w.new_frame_size
    → IsFound (find_max t cur ks w).new_frame_size
unfolding find_max
find_max-IsFound t cur [] w h = h
find_max-IsFound t cur (k ∷ ks) w h =
    find_max-IsFound t cur ks _
      (elim (Bool-cases (not (index k == cur) && ltb w.max_count (t.n k))) [
        | inl e ↦ rw e (inr (k, refl))
        | inr e ↦ rw e h
      ])

judge_winner-Settles :
    (r : Receiver) (batch : Batch) (w : Winner)
    → IsSized r
    → IsFound w.new_frame_size
    → Settles resume_reception (judge_winner r batch w)
unfolding judge_winner is_unset settled cancel
judge_winner-Settles r batch w s (inl e) = rw e (_, refl, refl, s, refl)
judge_winner-Settles r batch w s (inr (k, e)) = elim (Bool-cases (is_unset w.new_frame_size)) [
  | inl f ↦ rw f (_, refl, refl, s, refl)
  | inr f ↦ rw f (elim (Bool-cases (is_size w.new_frame_size batch.fsize)) [
    | inl g ↦ rw g (_, refl, refl, s, refl)
    | inr g ↦ rw (g, e) (switch_format-Settles r k (batch.frames w.last_seen) s)
  ])
]

pub follow_lem :
    (r : Receiver) (fsize : ℕ) (c : Check)
    → IsSized r
    → ((follow r fsize c).1 ≡ true) × IsSized (follow r fsize c).0
unfolding follow set_new_fmt_drx set_new_fmt_tbs
follow_lem r fsize c s = elim (Bool-cases (is_drx fsize && c.drx_rate_change && not c.look_more)) [
  | inl e ↦ rw e (elim (Bool-cases (is_tbs fsize && c.tbs_chan_change && not c.look_more)) [
    | inl f ↦ rw f (refl, record { transfer = s.transfer; buffer = s.buffer })
    | inr f ↦ rw f (refl, record { transfer = s.transfer; buffer = s.buffer })
  ])
  | inr e ↦ rw e (elim (Bool-cases (is_tbs fsize && c.tbs_chan_change && not c.look_more)) [
    | inl f ↦ rw f (refl, record { transfer = s.transfer; buffer = s.buffer })
    | inr f ↦ rw f (refl, s)
  ])
]

conclude-Settles :
    (followed : Receiver × Bool) (look_more : Bool) (batch : Batch) (cnt : ℕ)
    → followed.1 ≡ true
    → IsSized followed.0
    → Settles resume_reception (conclude followed look_more batch cnt)
unfolding conclude settled post winner_of
conclude-Settles (r, ok) true batch cnt h s =
    rw h
      (judge_winner-Settles r batch (winner_of batch cnt) s (find_max-IsFound _ _ _ _ (inl refl)))
conclude-Settles (r, ok) false batch cnt h s = rw h (_, refl, refl, s, refl)

on_packets-Settles :
    (r : Receiver) (batch : Batch) (cnt : ℕ)
    → IsSized r
    → Settles resume_reception (on_packets r batch cnt)
unfolding on_packets
on_packets-Settles r batch cnt s =
    let r1 = record r { bytes_received = add_lengths batch.frames 0 cnt r.bytes_received } in
    let fsize = r.current_format.frame_size in
    let c = check r1 fsize batch.frames 0 cnt unchecked in
    let (ok, s2) = follow_lem r1 fsize c (record { transfer = s.transfer; buffer = s.buffer }) in
    conclude-Settles (follow r1 fsize c) c.look_more batch cnt ok s2

unfoldable pub next_after : Received → Next
next_after nothing = resume_reception
next_after failed = abort_reception
next_after (packets batch more) = resume_reception

-- Whatever `recvmmsg` does, a turn of a receiver with the sizes that `initialize` sets gives its ticket
-- away, filled or empty, exactly once, and keeps these sizes; it goes on with the next turn unless
-- `recvmmsg` failed, and then it does not.
pub turn_settles :
    (r : Receiver) (x : Received)
    → IsSized r
    → (t : Turn) × (turn r x ≡ returns t)
      × (settled t.calls ≡ 1)
      × IsSized t.receiver
      × (t.next ≡ next_after x)
unfolding turn settled cancel abort next_after
turn_settles r nothing s = (_, refl, refl, s, refl)
turn_settles r failed s = (_, refl, refl, record { transfer = s.transfer; buffer = s.buffer }, refl)
turn_settles r (packets batch more) s = on_packets-Settles r batch (suc more) s
