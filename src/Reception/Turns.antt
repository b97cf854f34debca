-- ===== src/Reception/Turns.antt =====
-- DROS2/Actors/Receiver.h: a turn of the loop of `run`, from the call of `recvmmsg` on. The measured lag and the
-- log are left out.
pub mod Settles
pub mod Uniform
pub mod Checks
pub mod Locks
pub mod Stuck
use data_recorder.Base.{
  ℕ, zero, suc, ◌+◌, ◌*◌, ◌/◌, ◌%◌, Bool, true, false, List, [], ◌∷◌, ◌++◌, ◌==◌, ltb,
  if◌then◌else◌, not, ◌&&◌, ◌||◌, word, Exit, returns, fatal, ◌>>=◌,
}
use data_recorder.Base.Int.{ℤ, pos, negsuc}
use data_recorder.Reception.Formats.{
  DataFormat, Filter, filt_1, filt_2, filt_3, filt_4, filt_5, filt_6, filt_7, FormatName,
  default_drx, default_drx8, default_tbs, default_tbt, default_cor, tbs_filt_7, tbs_filt_8,
  tbs_filt_9, drx_filt, drx8_filt, get_format_by_name, tbs4_frame_size, tbs8_frame_size,
  tbs12_frame_size, tbt_frame_size, cor_frame_size, drx_frame_size, drx8_frame_size,
}
use data_recorder.Reception.Receiver.{
  Receiver, ideal_transfer_size, initial_buffer_size, new_receiver, Call, notify_fill, return_empty,
  reset, uninit, finalize, bswap16, by_dec_factor, set_new_fmt_drx, tbs_name, set_new_fmt_tbs,
  do_reset,
}
use data_recorder.Reception.Packets.{
  Packet, Batch, add_lengths, is_drx, is_tbs, differs, other, Check, unchecked, check_header, check,
  Kind, error, empty, tbs, tbt, cor, drx, drx8, oddball, index, sz, kind_of, Tally, count,
  count_sizes, Winner, find_max, winner_of,
}

-- The macro RESUME_RECEPTION or `continue`, and ABORT_RECEPTION.
pub data Next : Type 0 where
  resume_reception : Next
  abort_reception : Next

pub record Turn : Type 0 where
  pub receiver : Receiver
  pub calls : List Call
  pub next : Next

-- CANCEL_TICKET and RESUME_RECEPTION; POST_TICKET and RESUME_RECEPTION; ABORT_RECEPTION after the calls.
unfoldable pub cancel : Receiver → Turn
cancel r = record { receiver = r; calls = return_empty ∷ []; next = resume_reception }

unfoldable pub post : Receiver → ℕ → Turn
post r cnt = record { receiver = r; calls = notify_fill cnt ∷ []; next = resume_reception }

unfoldable pub abort : Receiver → List Call → Turn
abort r calls = record {
  receiver = record r { is_done = true };
  calls = calls ++ uninit ∷ finalize ∷ [];
  next = abort_reception;
}

-- The end of a mode change. The ticket is returned before the reset, and again if that fails.
unfoldable pub after_reset : Receiver × List Call × Bool → Turn
after_reset (r, calls, ok) =
    if ok
    then record { receiver = r; calls = return_empty ∷ calls; next = resume_reception }
    else abort r (return_empty ∷ calls ++ return_empty ∷ [])

unfoldable pub change_mode : Receiver → Exit Turn
change_mode r = do_reset r >>= λ done. returns (after_reset done)

-- What follows a new format, if it was set.
unfoldable pub if_set : Receiver × Bool → Exit Turn
if_set (r, ok) = if ok then change_mode r else returns (cancel r)

-- The switch on the new frame size, with the frame at `last_seen`.
unfoldable pub switch_format : Receiver → ℤ → Packet → Exit Turn
switch_format r (negsuc i) f =
    if ltb i 2 then returns (cancel r) else returns (abort r (return_empty ∷ []))
switch_format r (pos size) f =
    if size == 0
    then returns (cancel r)
    else if is_tbs size
    then if_set (
        set_new_fmt_tbs (record r { new_format = get_format_by_name default_tbs })
          (bswap16 f.n_chan))
    else if size == tbt_frame_size
    then change_mode (record r { new_format = get_format_by_name default_tbt })
    else if size == cor_frame_size
    then change_mode (record r { new_format = get_format_by_name default_cor })
    else if is_drx size
    then if_set (set_new_fmt_drx r (bswap16 f.dec_factor) f.drx_is_adp)
    else returns (abort r (return_empty ∷ []))

unfoldable pub is_size : ℤ → ℕ → Bool
is_size (pos n) m = n == m
is_size (negsuc n) m = false

-- Whether it is still -3.
unfoldable pub is_unset : ℤ → Bool
is_unset (pos n) = false
is_unset (negsuc n) = n == 2

-- What follows the search for a winner.
unfoldable pub judge_winner : Receiver → Batch → Winner → Exit Turn
judge_winner r batch w =
    if is_unset w.new_frame_size
    then returns (cancel r)
    else if is_size w.new_frame_size batch.fsize
    then returns (cancel r)
    else switch_format r w.new_frame_size (batch.frames w.last_seen)

-- The format that the quick check asks for, and whether a call that sets it says that it did.
unfoldable pub follow : Receiver → ℕ → Check → Receiver × Bool
follow r fsize c =
    let (r1, drx_ok) =
      if is_drx fsize && c.drx_rate_change && not c.look_more
      then set_new_fmt_drx r c.new_drx_dec_factor c.is_drx8
      else (r, true) in
    if not drx_ok
    then (r1, false)
    else if is_tbs fsize && c.tbs_chan_change && not c.look_more
    then set_new_fmt_tbs r1 c.new_tbs_n_chan
    else (r1, true)

-- What follows the quick check.
unfoldable pub conclude : Receiver × Bool → Bool → Batch → ℕ → Exit Turn
conclude (r, ok) look_more batch cnt =
    if not ok
    then returns (cancel r)
    else if not look_more
    then returns (post r cnt)
    else judge_winner r batch (winner_of batch cnt)

-- `cnt` packets were received.
unfoldable pub on_packets : Receiver → Batch → ℕ → Exit Turn
on_packets r0 batch cnt =
    let fsize = r0.current_format.frame_size in
    let r = record r0 { bytes_received = add_lengths batch.frames 0 cnt r0.bytes_received } in
    let c = check r fsize batch.frames 0 cnt unchecked in
    conclude (follow r fsize c) c.look_more batch cnt

-- What `recvmmsg` did: it timed out or was interrupted, or would block; it failed; or it received one
-- packet more than the number.
pub data Received : Type 0 where
  nothing : Received
  failed : Received
  packets : Batch → ℕ → Received

-- A turn of the loop of `run`, from the call of `recvmmsg` on.
unfoldable pub turn : Receiver → Received → Exit Turn
turn r nothing = returns (cancel r)
turn r failed = returns (abort r (return_empty ∷ []))
turn r (packets batch more) = on_packets r batch (suc more)
