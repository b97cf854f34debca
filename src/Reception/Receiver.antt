-- ===== src/Reception/Receiver.antt =====
-- DROS2/Actors/Receiver.h: the receiver's state, the format that it chooses from a header, and `__doReset`. The
-- result of `buf->reset` is not looked at, so that its call is only listed.
use data_recorder.Base.{
  ℕ, ◌+◌, ◌*◌, ◌/◌, ◌%◌, Bool, true, false, List, [], ◌∷◌, ◌==◌, ltb, if◌then◌else◌, ◌||◌, word,
  Exit, returns, fatal,
}
use data_recorder.Base.Int.{ℤ, negsuc}
use data_recorder.Reception.Formats.{
  DataFormat, Filter, filt_1, filt_2, filt_3, filt_4, filt_5, filt_6, filt_7, FormatName,
  default_drx, default_drx8, default_tbs, tbs_filt_7, tbs_filt_8, tbs_filt_9, drx_filt, drx8_filt,
  get_format_by_name,
}

pub record Receiver : Type 0 where
  pub current_format : DataFormat
  pub bufsize : ℕ
  pub transfer_size : ℕ
  pub current_drx_dec_factor : ℤ
  pub current_is_drx8 : Bool
  pub current_tbs_n_chan : ℤ
  pub reset_required : Bool
  pub new_format : DataFormat
  pub new_transfer_size : ℕ
  pub new_buf_size : ℕ
  pub is_done : Bool
  pub bytes_received : ℕ

abbrev pub ideal_transfer_size : ℕ
ideal_transfer_size = 4194304

abbrev pub initial_buffer_size : ℕ
initial_buffer_size = 4294967296

unfoldable pub new_receiver : Receiver
new_receiver = record {
  current_format = get_format_by_name (drx_filt filt_7);
  bufsize = 0;
  transfer_size = 0;
  current_drx_dec_factor = negsuc 0;
  current_is_drx8 = false;
  current_tbs_n_chan = negsuc 0;
  reset_required = true;
  new_format = get_format_by_name (drx_filt filt_7);
  new_transfer_size = ideal_transfer_size;
  new_buf_size = initial_buffer_size;
  is_done = false;
  bytes_received = 0;
}

-- What is called on the ticket, the buffer and the thread.
pub data Call : Type 0 where
  notify_fill : ℕ → Call
  return_empty : Call
  reset : ℕ → ℕ → ℕ → Call
  uninit : Call
  finalize : Call

unfoldable pub bswap16 : ℕ → ℕ
bswap16 x = x / 256 % 256 + x % 256 * 256

-- The filter of a decimation factor, or the default.
unfoldable pub by_dec_factor : ℕ → (Filter → FormatName) → FormatName → FormatName
by_dec_factor dec_factor filt default =
    if dec_factor == 784
    then filt filt_1
    else if dec_factor == 392
    then filt filt_2
    else if dec_factor == 196
    then filt filt_3
    else if dec_factor == 98
    then filt filt_4
    else if dec_factor == 40
    then filt filt_5
    else if dec_factor == 20
    then filt filt_6
    else if dec_factor == 10
    then filt filt_7
    else default

unfoldable pub set_new_fmt_drx : Receiver → ℕ → Bool → Receiver × Bool
set_new_fmt_drx r dec_factor is_drx8 =
    let name =
      if is_drx8
      then by_dec_factor dec_factor drx8_filt default_drx8
      else by_dec_factor dec_factor drx_filt default_drx in
    (record r { new_format = get_format_by_name name }, true)

unfoldable pub tbs_name : ℕ → FormatName
tbs_name n_chan =
    if n_chan == 12
    then tbs_filt_9
    else if n_chan == 8
    then tbs_filt_8
    else if n_chan == 4
    then tbs_filt_7
    else default_tbs

unfoldable pub set_new_fmt_tbs : Receiver → ℕ → Receiver × Bool
set_new_fmt_tbs r n_chan = (record r { new_format = get_format_by_name (tbs_name n_chan) }, true)

-- `__doReset`, with its call on the buffer and whether it succeeded. A division by 0 is `fatal`.
unfoldable pub do_reset : Receiver → Exit (Receiver × List Call × Bool)
do_reset r =
    let fsize = r.new_format.frame_size in
    if (r.new_buf_size == 0) || (r.new_transfer_size == 0) || (fsize == 0)
    then returns (record r { reset_required = false }, [], false)
    else if ltb r.new_buf_size r.new_transfer_size
    then returns (record r { reset_required = false }, [], false)
    else let new_frames_per_ticket = r.new_transfer_size / fsize in
      let fixed = word (new_frames_per_ticket * fsize) in
      if fixed == 0
      then fatal
      else if ltb (r.new_buf_size / fixed) 3
      then returns (r, [], false)
      else returns (
        record r {
          bufsize = r.new_buf_size;
          current_format = r.new_format;
          transfer_size = r.new_transfer_size;
          current_drx_dec_factor = r.new_format.dec_factor;
          current_is_drx8 = r.new_format.bit_depth == 8;
          reset_required = false;
        },
        reset r.new_buf_size fsize new_frames_per_ticket ∷ [],
        true,
      )
