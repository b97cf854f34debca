-- ===== src/Streaming/Writer.antt =====
-- DROS2/Streaming/FileWriter.h and SubscriberThread.h: the thread that writes the tickets of a recording to
-- its file. `writev` is a parameter on a state `W` of the file system, and the clock, the interruption and
-- the calls of `stopRecording` by other threads are in the rounds of the loop. The calls on the owner are kept
-- in `events`, oldest first. `__doSidCheck` only logs and is left out.
pub mod Runs
pub mod Late
pub mod Shared
use data_recorder.Base.{
  ℕ, zero, suc, ◌+◌, Bool, true, false, Option, none, some, List, [], ◌∷◌, ◌++◌, ◌==◌, leb,
  if◌then◌else◌, not, ◌&&◌, ◌||◌, Ordering, word, sub_word,
}
use data_recorder.Time.{TimeStamp, TimeSlot, compare_slot_stamp}
use data_recorder.Streaming.Tickets.{Pool, Subscriber, put, get_next, on_reset}
use data_recorder.Streaming.Buffer.{Iovec}
use data_recorder.Streaming.Recorder.{
  File, WriteResult, wrote, failed, is_retriable, advance, vector_of, is_writable,
}

pub data FileWriterState : Type 0 where
  fws_invalid fws_initialized fws_connected fws_recording fws_disconnected fws_uninit fws_done :
      FileWriterState

-- The calls on the owner.
pub data WriterEvent : Type 0 where
  thread_start record_start error record_stop thread_stop : WriterEvent

-- The texts of the attribute `opCompleteReason`.
pub data Reason : Type 0 where
  manually_aborted io_error interrupted_otherwise size_limit_hit time_limit_hit : Reason

-- The members; `owner` is whether it is not null. `op_complete` and `reason` are attributes of the file.
pub record FileWriter : Type 0 where
  pub owner : Bool
  pub file : Option File
  pub bytes_written_this_file : ℕ
  pub ts : TimeSlot
  pub size_limit : ℕ
  pub size_limit_reached : Bool
  pub time_limit_reached : Bool
  pub manually_stopped : Bool
  pub error_occurred : Bool
  pub notified_started : Bool
  pub state : FileWriterState
  pub events : List WriterEvent
  pub op_complete : Option Bool
  pub reason : Option Reason

-- The constructor, for a file without attributes.
unfoldable pub file_writer : Bool → Option File → TimeSlot → ℕ → FileWriter
file_writer owner file ts size_limit = record {
  owner = owner;
  file = file;
  bytes_written_this_file = 0;
  ts = ts;
  size_limit = size_limit;
  size_limit_reached = false;
  time_limit_reached = false;
  manually_stopped = false;
  error_occurred = false;
  notified_started = false;
  state = fws_invalid;
  events = [];
  op_complete = none;
  reason = none;
}

unfoldable pub notify : WriterEvent → FileWriter → FileWriter
notify e r = if r.owner then record r { events = r.events ++ e ∷ [] } else r

unfoldable pub stop_recording : FileWriter → FileWriter
stop_recording r = record r { manually_stopped = true }

-- What `canContinue` tests.
unfoldable pub has_ended : FileWriter → Bool
has_ended r =
    r.size_limit_reached || (r.time_limit_reached || (r.manually_stopped || r.error_occurred))

unfoldable pub can_continue : FileWriter → FileWriter × Bool
unfolding notify has_ended
can_continue r =
    if has_ended r
    then (notify record_stop (if r.error_occurred then notify error r else r), false)
    else (r, true)

abbrev pub is_open_file : Option File → Bool
is_open_file none = false
is_open_file (some file) = file.is_open

unfoldable pub on_init : FileWriter → FileWriter × Bool
unfolding notify
on_init r = (notify thread_start (record r { state = fws_initialized }), is_open_file r.file)

unfoldable pub on_connected : FileWriter → FileWriter
on_connected r = record r { state = fws_connected }

unfoldable pub on_receive_loop_start : FileWriter → FileWriter × Bool
unfolding can_continue
on_receive_loop_start r = can_continue (record r { state = fws_recording })

-- What a turn of the loop in `writeTicket` does with a result.
pub data Attempt : Type 0 where
  retry : Attempt
  go_on : ℕ → Attempt
  finish : ℕ → Attempt
  not_whole : Attempt
  break_off : Attempt

unfoldable pub judge : Bool → ℕ → WriteResult → Attempt
judge continuous bytes_to_write (failed errno) = if is_retriable errno then retry else break_off
judge continuous bytes_to_write (wrote n) =
    if n == 0
    then retry
    else if not (n == bytes_to_write)
    then if continuous then go_on n else not_whole
    else finish n

-- How `writeTicket` leaves the loop: with so many bytes to count, or by a `return` in it.
pub data TicketEnd : Type 0 where
  counted : ℕ → TicketEnd
  partial : TicketEnd
  io_failed : TicketEnd

abbrev pub retry_count : ℕ
retry_count = 10

-- The vector's length stays as it was after a partial write.
module _ {W : Type 0} (writev : W → List Iovec → W × WriteResult) where
  unfoldable pub write_loop : ℕ → W → Bool → List Iovec → ℕ → ℕ → W × TicketEnd
  write_loop zero w continuous io bytes_to_write written = (w, counted written)
  write_loop (suc n) w continuous io bytes_to_write written =
      let (w', result) = writev w io in
      elim (judge continuous bytes_to_write result) [
        | retry ↦ write_loop n w' continuous io bytes_to_write written
        | go_on k ↦
            write_loop n w' continuous (advance k io) (sub_word bytes_to_write k)
              (word (written + k))
        | finish k ↦ (w', counted (word (written + k)))
        | not_whole ↦ (w', partial)
        | break_off ↦ (w', io_failed)
      ]

unfoldable pub conclude : TicketEnd → FileWriter → FileWriter
conclude (counted n) r = record r { bytes_written_this_file = word (r.bytes_written_this_file + n) }
conclude partial r = r
conclude io_failed r = record r { error_occurred = true }

unfoldable pub on_disconnected : FileWriter → FileWriter
on_disconnected r = record r { state = fws_disconnected }

abbrev pub closed : Option File → Option File
closed none = none
closed (some file) = some (record file { is_open = false })

-- `onUninit`, with a file that is not null.
unfoldable pub on_uninit : FileWriter → FileWriter
on_uninit r =
    let complete = r.size_limit_reached || r.time_limit_reached in
    let why : Reason =
      if not complete
      then if r.manually_stopped
        then manually_aborted
        else if r.error_occurred
        then io_error
        else interrupted_otherwise
      else if r.size_limit_reached
      then size_limit_hit
      else time_limit_hit in
    record r {
      file = closed r.file;
      op_complete = some complete;
      reason = some why;
      state = fws_uninit;
    }

unfoldable pub on_done : FileWriter → FileWriter
unfolding notify
on_done r = record (notify thread_stop r) { state = fws_done }

unfoldable pub notify_start : FileWriter → FileWriter
unfolding notify
notify_start r =
    if r.notified_started then r else notify record_start (record r { notified_started = true })

unfoldable pub on_ticket_buffer_empty : TimeStamp → FileWriter → FileWriter × Bool
unfolding can_continue notify_start
on_ticket_buffer_empty now r = can_continue (elim (compare_slot_stamp r.ts now) [
  | Ordering.lt ↦ r
  | Ordering.eq ↦ notify_start r
  | Ordering.gt ↦ record r { time_limit_reached = true }
])

unfoldable pub check_size : FileWriter → FileWriter
check_size r =
    if not (r.size_limit == 0) && leb r.size_limit r.bytes_written_this_file
    then record r { size_limit_reached = true }
    else r

-- A round of the thread's loop: whether the thread is interrupted; whether another thread calls
-- `stopRecording` before the round, or between its first test and the ticket's; the time; and what the
-- buffer does meanwhile to the pool and the queue.
pub record Round : Type 0 where
  pub interrupted : Bool
  pub stop_before : Bool
  pub stop_between : Bool
  pub now : TimeStamp
  pub others : Pool → Subscriber → Pool × Subscriber

module _ {W : Type 0} (writev : W → List Iovec → W × WriteResult) (frames : ℕ → List Iovec) where
  unfoldable pub write_ticket : W → FileWriter → Pool → ℕ → FileWriter × W
  unfolding conclude
  write_ticket w r p id =
      if not (is_writable r.file)
      then (record r { error_occurred = true }, w)
      else let t = p.tickets id in
        let (io, bytes_to_write) = vector_of t (frames id) in
        let (w', end) = write_loop writev retry_count w t.continuous io bytes_to_write 0 in
        (conclude end r, w')

  unfoldable pub on_ticket_received :
      TimeStamp → W → FileWriter → Pool → ℕ → FileWriter × W × Pool × Bool
  unfolding can_continue notify_start check_size
  on_ticket_received now w r p id =
      let (r1, goes) = can_continue r in
      let p1 = if goes then p else put p id in
      let (r2, w2) = elim (compare_slot_stamp r.ts now) as (λ _. FileWriter × W) [
        | Ordering.lt ↦ (r1, w)
        | Ordering.eq ↦ let (r', w') = write_ticket w (notify_start r1) p1 id in (check_size r', w')
        | Ordering.gt ↦ (record r1 { time_limit_reached = true }, w)
      ] in
      let (r3, goes_on) = can_continue r2 in (r3, w2, put p1 id, goes_on)

  -- A round that is not interrupted, and whether the loop is done.
  unfoldable pub round :
      Round → W → FileWriter → Pool → Subscriber → FileWriter × W × Pool × Subscriber × Bool
  unfolding on_receive_loop_start on_ticket_buffer_empty stop_recording
  round turn w r p q =
      let (r1, goes) = on_receive_loop_start (if turn.stop_before then stop_recording r else r) in
      if not goes
      then (r1, w, p, q, true)
      else let (p1, q1) = turn.others p q in
        let (p2, q2, next) = get_next p1 q1 in
        let r2 = if turn.stop_between then stop_recording r1 else r1 in
        elim next [
          | none ↦
              let (r3, goes_on) = on_ticket_buffer_empty turn.now r2 in (r3, w, p2, q2, not goes_on)
          | some id ↦
              let (r3, w3, p3, goes_on) = on_ticket_received turn.now w r2 p2 id in
              (r3, w3, p3, q2, not goes_on)
        ]

  -- The loop, and whether it is over by the end of the rounds.
  unfoldable pub receive :
      List Round → W → FileWriter → Pool → Subscriber → FileWriter × W × Pool × Subscriber × Bool
  receive [] w r p q = (r, w, p, q, false)
  receive (turn ∷ turns) w r p q =
      if turn.interrupted
      then (r, w, p, q, true)
      else let (r', w', p', q', done) = round turn w r p q in
        elim done [ true ↦ (r', w', p', q', true) | false ↦ receive turns w' r' p' q' ]

  -- What `run` does once the loop is over, or leaves as it is if it is not.
  unfoldable pub wind_up :
      FileWriter × W × Pool × Subscriber × Bool → FileWriter × W × Pool × Subscriber × Bool
  unfolding on_disconnected on_uninit on_done
  wind_up (r, w, p, q, false) = (r, w, p, q, false)
  wind_up (r, w, p, q, true) =
      let (p1, q1) = on_reset p q in
      let (p2, q2) = on_reset p1 q1 in (on_done (on_uninit (on_disconnected r)), w, p2, q2, true)

  -- `run`, with a buffer if the first argument is true, and whether it has returned. The entry in the buffer's list of
  -- subscribers, which `subscribe` and `unsubscribe` make and erase, is left out.
  unfoldable pub run :
      Bool
      → List Round
      → W
      → FileWriter
      → Pool
      → Subscriber
      → FileWriter × W × Pool × Subscriber × Bool
  unfolding on_init on_connected on_done
  run buf rounds w r p q =
      if not buf
      then (on_done r, w, p, q, true)
      else let (r1, goes) = on_init r in
        if not goes
        then (on_done r1, w, p, q, true)
        else wind_up (receive rounds w (on_connected r1) p q)
