-- ===== src/Streaming/Recorder/Commands.antt =====
-- The recorder's commands in any order.
use data_recorder.Base.{
  ℕ, ◌≡◌, refl, Bool, true, false, Option, List, [], ◌∷◌, ◌++◌, if◌then◌else◌, arith, Bool-cases,
  inl, inr,
}
use data_recorder.Streaming.Tickets.{Pool}
use data_recorder.Streaming.Buffer.{Iovec}
use data_recorder.Streaming.Recorder.{
  Recorder, File, FileEvent, is_error, on_file_event, set_output_file, start_recording,
  stop_recording, connect, disconnect, is_writable, conclude, write_ticket, WriteResult, Ending,
}

pub data Command : Type 0 where
  sets_output_file : Option File → ℕ → Command
  starts stops disconnects : Command
  connects : Bool → Command
  writes : List Iovec → ℕ → Command

module _ {W : Type 0} (writev : W → List Iovec → W × WriteResult) where
  abbrev pub perform : Recorder × W × Pool → Command → Recorder × W × Pool
  perform (r, w, p) (sets_output_file file limit) = (set_output_file file limit r, w, p)
  perform (r, w, p) starts = (start_recording r, w, p)
  perform (r, w, p) stops = (stop_recording r, w, p)
  perform (r, w, p) disconnects = (disconnect r, w, p)
  perform (r, w, p) (connects buf) = (connect buf r, w, p)
  perform (r, w, p) (writes frames id) = write_ticket writev w frames r p id

  pub perform_all : Recorder × W × Pool → List Command → Recorder × W × Pool
  perform_all s [] = s
  perform_all s (c ∷ commands) = perform_all (perform s c) commands

abbrev pub any_error : List FileEvent → Bool
any_error [] = false
any_error (e ∷ events) = if is_error e then true else any_error events

any_error-append :
    (e : FileEvent) (events : List FileEvent)
    → any_error (events ++ e ∷ []) ≡ (if is_error e then true else any_error events)
any_error-append e [] = refl
any_error-append e (x ∷ events) = ground (arith, any_error-append e events)

-- A recorder that records is connected, and its error flag says whether an error was reported.
pub record IsSound (r : Recorder) : Type 0 where
  pub connected : r.recording ≡ true → r.buf ≡ true
  pub flagged : r.error ≡ any_error r.events

conclude-IsSound : (e : Ending) (r : Recorder) → IsSound r → IsSound (conclude e r)
unfolding conclude on_file_event
conclude-IsSound e r v = record {
  connected = ground (arith, v.connected);
  flagged = ground (
    arith,
    v.flagged,
    any_error-append FileEvent.fe_error r.events,
    any_error-append FileEvent.fe_limit r.events,
  );
}

on_file_event-IsSound : (e : FileEvent) (r : Recorder) → IsSound r → IsSound (on_file_event e r)
unfolding on_file_event
on_file_event-IsSound e r v = record {
  connected = v.connected;
  flagged = ground (arith, v.flagged, any_error-append e r.events);
}

set_output_file-IsSound :
    (file : Option File) (limit : ℕ) (r : Recorder)
    → IsSound r
    → IsSound (set_output_file file limit r)
unfolding set_output_file
set_output_file-IsSound file limit r v =
    on_file_event-IsSound _ _ (record { connected = v.connected; flagged = v.flagged })

start_recording-IsSound : (r : Recorder) → IsSound r → IsSound (start_recording r)
unfolding start_recording on_file_event
start_recording-IsSound r v = record {
  connected = ground (arith, v.connected);
  flagged = ground (
    arith,
    v.flagged,
    any_error-append FileEvent.fe_error r.events,
    any_error-append FileEvent.fe_start r.events,
  );
}

stop_recording-IsSound : (r : Recorder) → IsSound r → IsSound (stop_recording r)
unfolding stop_recording on_file_event
stop_recording-IsSound r v = record {
  connected = ground (arith, v.connected);
  flagged = ground (
    arith,
    v.flagged,
    any_error-append FileEvent.fe_error r.events,
    any_error-append FileEvent.fe_stop r.events,
  );
}

connect-IsSound : (buf : Bool) (r : Recorder) → IsSound r → IsSound (connect buf r)
unfolding connect on_file_event
connect-IsSound buf r v = record {
  connected = ground (arith, v.connected);
  flagged = ground (
    arith,
    v.flagged,
    any_error-append FileEvent.fe_error r.events,
    any_error-append FileEvent.fe_connect r.events,
  );
}

disconnect-IsSound : (r : Recorder) → IsSound r → IsSound (disconnect r)
unfolding disconnect on_file_event
disconnect-IsSound r v = record {
  connected = ground (arith, v.connected);
  flagged = ground (
    arith,
    v.flagged,
    any_error-append FileEvent.fe_error r.events,
    any_error-append FileEvent.fe_disconnect r.events,
  );
}

module _ {W : Type 0} (writev : W → List Iovec → W × WriteResult) where
  write_ticket-IsSound :
      (w : W) (frames : List Iovec) (r : Recorder) (p : Pool) (id : ℕ)
      → IsSound r
      → IsSound (write_ticket writev w frames r p id).0
  unfolding write_ticket is_writable
  write_ticket-IsSound w frames r p id v = elim (Bool-cases (is_writable r.outfile)) [
    | inl e ↦ rw (e, write_ticket) (conclude-IsSound _ r v)
    | inr e ↦ rw (e, write_ticket) (on_file_event-IsSound _ r v)
  ]

  perform-IsSound :
      (s : Recorder × W × Pool) (c : Command) → IsSound s.0 → IsSound (perform writev s c).0
  perform-IsSound s (sets_output_file file limit) v = set_output_file-IsSound file limit s.0 v
  perform-IsSound s starts v = start_recording-IsSound s.0 v
  perform-IsSound s stops v = stop_recording-IsSound s.0 v
  perform-IsSound s disconnects v = disconnect-IsSound s.0 v
  perform-IsSound s (connects buf) v = connect-IsSound buf s.0 v
  perform-IsSound s (writes frames id) v = write_ticket-IsSound s.1 frames s.0 s.2 id v

  -- If at the start a recorder that records is connected, and its error flag is set exactly if
  -- the callback was told of an error, then both hold after any commands and writes, whatever
  -- the file system returns.
  pub perform_all-IsSound :
      (s : Recorder × W × Pool) (commands : List Command)
      → IsSound s.0
      → IsSound (perform_all writev s commands).0
  unfolding perform_all
  perform_all-IsSound s [] v = v
  perform_all-IsSound s (c ∷ commands) v =
      perform_all-IsSound (perform writev s c) commands (perform-IsSound s c v)
