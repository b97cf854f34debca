-- ===== src/Streaming/Recorder.antt =====
-- DROS2/Streaming/BaseRecorder.h: the recorder's state, its commands, and how it writes a ticket to its
-- file. `writev` is a parameter on a state `W` of the file system. The thread's loop is one call of
-- `pass` for each turn. The callback's calls are kept in `events`, oldest first.
pub mod Commands
pub mod Script
pub mod Writes
pub mod Sids
use data_recorder.Base.{
  ℕ, zero, suc, ◌+◌, ◌*◌, Bool, true, false, Option, none, some, List, [], ◌∷◌, ◌++◌, ◌==◌, leb,
  if◌then◌else◌, not, word, sub_word, take,
}
use data_recorder.Base.Int.{ℤ, pos, negsuc}
use data_recorder.Streaming.Tickets.{Ticket, Pool, Subscriber, put, get_next}
use data_recorder.Streaming.Buffer.{Iovec}

pub data FileEvent : Type 0 where
  fe_init fe_connect fe_disconnect fe_start fe_stop fe_limit fe_error fe_done fe_file_changed :
      FileEvent

-- What the recorder asks of a `File`: whether it is open, and its descriptor, if not null.
pub record File : Type 0 where
  pub is_open : Bool
  pub descriptor : Option ℤ

-- The members; `buf` is whether it is not null.
pub record Recorder : Type 0 where
  pub buf : Bool
  pub outfile : Option File
  pub bytes_written_this_file : ℕ
  pub bytes_written_this_session : ℕ
  pub size_limit : ℕ
  pub recording : Bool
  pub error : Bool
  pub events : List FileEvent

-- The constructor.
abbrev pub new_recorder : Recorder
new_recorder = record {
  buf = false;
  outfile = none;
  bytes_written_this_file = 0;
  bytes_written_this_session = 0;
  size_limit = 0;
  recording = false;
  error = false;
  events = [];
}

abbrev pub is_error : FileEvent → Bool
is_error fe_error = true
is_error _ = false

unfoldable pub on_file_event : FileEvent → Recorder → Recorder
on_file_event e r = record r {
  error = if is_error e then true else r.error;
  events = r.events ++ e ∷ [];
}

unfoldable pub set_output_file : Option File → ℕ → Recorder → Recorder
set_output_file outfile size_limit r =
    on_file_event fe_file_changed (record r { outfile = outfile; size_limit = size_limit })

unfoldable pub start_recording : Recorder → Recorder
start_recording r =
    if not r.buf
    then on_file_event fe_error r
    else on_file_event fe_start (record r { recording = true })

unfoldable pub stop_recording : Recorder → Recorder
stop_recording r =
    if not r.buf
    then on_file_event fe_error r
    else on_file_event fe_stop (record r { recording = false })

-- The argument is whether the buffer's pointer is not null.
unfoldable pub connect : Bool → Recorder → Recorder
connect buf r =
    if r.buf
    then on_file_event fe_error r
    else if not buf
    then on_file_event fe_error r
    else on_file_event fe_connect (record r { buf = true })

unfoldable pub disconnect : Recorder → Recorder
disconnect r =
    if not r.buf
    then on_file_event fe_error r
    else if r.recording
    then on_file_event fe_error r
    else on_file_event fe_disconnect (record r { buf = false })

-- A gap that `__doSidCheck` logs: the number seen and the one expected.
pub record SidGap : Type 0 where
  pub seen : ℕ
  pub expected : ℕ

-- `__doSidCheck` for the numbers in the frames of a ticket of DRX or DRX8 frames, the only ones that
-- it checks: the new `last_sid` and the gaps.
unfoldable pub do_sid_check : ℕ → List ℕ → ℕ × List SidGap
do_sid_check last_sid [] = (last_sid, [])
do_sid_check last_sid (sid ∷ sids) =
    let (last, gaps) = do_sid_check sid sids in
    if sid == word (last_sid + 1)
    then (last, gaps)
    else (last, record { seen = sid; expected = word (last_sid + 1) } ∷ gaps)

-- What `writev` returns: a number of bytes, or -1 with `errno`.
pub data WriteResult : Type 0 where
  wrote : ℕ → WriteResult
  failed : ℕ → WriteResult

-- `EINTR`, `EAGAIN` and 512
abbrev pub is_retriable : ℕ → Bool
is_retriable errno = if errno == 4 then true else if errno == 11 then true else errno == 512

-- What one turn of the loop in `writeTicket` does with a result.
pub data Turn : Type 0 where
  try_again : Turn
  go_on : ℕ → Turn
  finish : ℕ → Turn
  give_up : Turn

unfoldable pub judge : Bool → ℕ → WriteResult → Turn
judge continuous bytes_to_write (failed errno) = if is_retriable errno then try_again else give_up
judge continuous bytes_to_write (wrote n) =
    if n == 0
    then try_again
    else if n == bytes_to_write
    then finish n
    else if continuous
    then go_on n
    else give_up

-- How the loop ends: all written, so many bytes in all; no more retries; or at the `error` label.
pub data Ending : Type 0 where
  done : ℕ → Ending
  too_many_retries : Ending
  at_error : Ending

-- The vector of the next attempt. The length stays as it was.
unfoldable pub advance : ℕ → List Iovec → List Iovec
advance n [] = []
advance n (io ∷ rest) = record io { iov_base = io.iov_base + n } ∷ rest

abbrev pub retries : ℕ
retries = 10

module _ {W : Type 0} (writev : W → List Iovec → W × WriteResult) where
  -- The loop of `writeTicket`, with the retries left.
  unfoldable pub write_loop : ℕ → W → Bool → List Iovec → ℕ → ℕ → W × Ending
  write_loop zero w continuous io bytes_to_write written = (w, too_many_retries)
  write_loop (suc n) w continuous io bytes_to_write written =
      let (w', result) = writev w io in
      elim (judge continuous bytes_to_write result) [
        | try_again ↦ write_loop n w' continuous io bytes_to_write written
        | go_on k ↦
            write_loop n w' continuous (advance k io) (sub_word bytes_to_write k)
              (word (written + k))
        | finish k ↦ (w', done (word (written + k)))
        | give_up ↦ (w', at_error)
      ]

abbrev pub total_length : List Iovec → ℕ
total_length [] = 0
total_length (io ∷ rest) = io.iov_len + total_length rest

-- The vector for a ticket and its bytes; `frames` are the entries of the ticket's own vector.
unfoldable pub vector_of : Ticket → List Iovec → List Iovec × ℕ
vector_of t frames =
    if t.continuous
    then elim frames [
      | [] ↦ ([], word (t.cnt_used * t.fsize))
      | io ∷ _ ↦
          let bytes = word (t.cnt_used * t.fsize) in
          (record { iov_base = io.iov_base; iov_len = bytes } ∷ [], bytes)
    ]
    else (take t.cnt_used frames, word (total_length (take t.cnt_used frames)))

abbrev pub is_negative : ℤ → Bool
is_negative (pos n) = false
is_negative (negsuc n) = true

-- The tests on the file before the first attempt.
unfoldable pub is_writable : Option File → Bool
is_writable none = false
is_writable (some file) =
    if not file.is_open
    then false
    else elim file.descriptor [ none ↦ false | some fd ↦ not (is_negative fd) ]

-- What `writeTicket` does to the recorder once the loop has ended.
unfoldable pub conclude : Ending → Recorder → Recorder
conclude too_many_retries r = r
conclude at_error r = on_file_event fe_error r
conclude (done n) r =
    let r' = record r {
      bytes_written_this_session = word (r.bytes_written_this_session + n);
      bytes_written_this_file = word (r.bytes_written_this_file + n);
    } in
    if r.size_limit == 0
    then r'
    else if leb r.size_limit r'.bytes_written_this_file
    then on_file_event fe_limit (record r' { recording = false })
    else r'

module _ {W : Type 0} (writev : W → List Iovec → W × WriteResult) where
  -- `writeTicket` for a ticket that is not null: the recorder, the file system and the pool.
  unfoldable pub write_ticket : W → List Iovec → Recorder → Pool → ℕ → Recorder × W × Pool
  write_ticket w frames r p id =
      let t = p.tickets id in
      let (io, bytes_to_write) = vector_of t frames in
      let (w', ending) = write_loop writev retries w t.continuous io bytes_to_write 0 in
      if is_writable r.outfile
      then (conclude ending r, w', put p id)
      else (on_file_event fe_error r, w, put p id)

  -- A turn of `run`, with the frames of each ticket.
  unfoldable pub pass :
      W → (ℕ → List Iovec) → Recorder → Pool → Subscriber → Recorder × W × Pool × Subscriber
  pass w frames r p queue =
      let (p', queue', next) = get_next p queue in
      elim next [
        | none ↦ (r, w, p', queue')
        | some id ↦
            let (r', w', p'') = write_ticket w (frames id) r p' id in
            if not r.recording then (r, w, put p' id, queue') else (r', w', p'', queue')
      ]
