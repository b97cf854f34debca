-- ===== src/Streaming/Writer/Runs.antt =====
-- When the thread of a recording ends, and how it leaves its file and its tickets.
use data_recorder.Base.{
  ℕ, ◌≡◌, refl, ◌⊎◌, inl, inr, Bool, true, false, Option, none, some, List, [], ◌∷◌, ◌++◌, ◌||◌,
  arith, Bool-cases,
}
use data_recorder.Streaming.Tickets.{Pool, Subscriber, on_reset}
use data_recorder.Streaming.Buffer.{Iovec}
use data_recorder.Streaming.Recorder.{File, WriteResult}
use data_recorder.Streaming.Writer.{
  FileWriter, fws_done, stop_recording, has_ended, can_continue, is_open_file, on_init,
  on_connected, on_receive_loop_start, closed, on_disconnected, on_uninit, on_done, notify, Round,
  round, receive, wind_up, run,
}

-- Another thread interrupts the loop before a round, or has called `stopRecording` by then.
abbrev pub Stops : Round → Type 0
Stops turn = (turn.interrupted ≡ true) ⊎ (turn.stop_before ≡ true)

stopped : (r : FileWriter) → has_ended (stop_recording r) ≡ true
unfolding has_ended stop_recording
stopped r = ground arith

stopped_loop : (r : FileWriter) → (on_receive_loop_start (stop_recording r)).1 ≡ false
unfolding on_receive_loop_start can_continue has_ended stop_recording
stopped_loop r = ground arith

closed_is_shut : (file : Option File) → is_open_file (closed file) ≡ false
closed_is_shut none = refl
closed_is_shut (some file) = refl

pub init_opens : (r : FileWriter) → is_open_file r.file ≡ true → (on_init r).1 ≡ true
unfolding on_init
init_opens r h = h

-- How a run ends.
pub record HasEnded (r : FileWriter) (q : Subscriber) (returned : Bool) : Type 0 where
  pub has_returned : returned ≡ true
  pub is_done : r.state ≡ fws_done
  pub no_tickets : q.queue ≡ []
  pub file_closed : is_open_file r.file ≡ false
  pub marked : r.op_complete ≡ some (r.size_limit_reached || r.time_limit_reached)

module _ {W : Type 0} (writev : W → List Iovec → W × WriteResult) (frames : ℕ → List Iovec) where
  round_stops :
      (turn : Round) (w : W) (r : FileWriter) (p : Pool) (q : Subscriber)
      → turn.stop_before ≡ true
      → (round writev frames turn w r p q).4 ≡ true
  unfolding round
  round_stops turn w r p q h = rw (h, stopped_loop r, round) refl

  receive_ends :
      (before after : List Round) (turn : Round) (w : W) (r : FileWriter) (p : Pool)
      (q : Subscriber)
      → Stops turn
      → (receive writev frames (before ++ turn ∷ after) w r p q).4 ≡ true
  unfolding receive round
  receive_ends [] after turn w r p q (inl h) = rw (h, receive) refl
  receive_ends [] after turn w r p q (inr h) = elim (Bool-cases turn.interrupted) [
    | inl e ↦ rw (e, receive) refl
    | inr e ↦ rw (e, round_stops turn w r p q h, receive) refl
  ]
  receive_ends (b ∷ before) after turn w r p q h =
      let s = round writev frames b w r p q in
      elim (Bool-cases b.interrupted) [
        | inl e ↦ rw (e, receive) refl
        | inr e ↦ elim (Bool-cases s.4) [
          | inl d ↦ rw (e, d, receive) refl
          | inr d ↦ rw (e, d, receive) (receive_ends before after turn s.1 s.0 s.2 s.3 h)
        ]
      ]

  wind_up-HasEnded :
      (s : FileWriter × W × Pool × Subscriber × Bool)
      → s.4 ≡ true
      → let t = wind_up writev frames s in HasEnded t.0 t.3 t.4
  unfolding wind_up on_disconnected on_uninit on_done on_reset notify
  wind_up-HasEnded (r, w, p, q, false) h = absurd (cc)
  wind_up-HasEnded (r, w, p, q, true) h = elim (Bool-cases r.owner) [
    | inl e ↦ record {
      has_returned = refl;
      is_done = ground arith;
      no_tickets = refl;
      file_closed = rw e (closed_is_shut r.file);
      marked = rw e refl;
    }
    | inr e ↦ record {
      has_returned = refl;
      is_done = ground arith;
      no_tickets = refl;
      file_closed = rw e (closed_is_shut r.file);
      marked = rw e refl;
    }
  ]

  -- A thread that has its buffer and an open file returns, once another thread interrupts it or has called
  -- `stopRecording` before one of its rounds, whatever the other rounds bring. Then its state is FWS_DONE, its queue
  -- is empty and its file closed, and the file is marked as complete exactly if the limit of size or of
  -- time was reached. The owner's callbacks leave the file alone.
  pub run_ends :
      (before after : List Round) (turn : Round) (w : W) (r : FileWriter) (p : Pool)
      (q : Subscriber)
      → is_open_file r.file ≡ true
      → Stops turn
      → let s = run writev frames true (before ++ turn ∷ after) w r p q in HasEnded s.0 s.3 s.4
  unfolding run
  run_ends before after turn w r p q is_open h =
      let start = on_connected (on_init r).0 in
      rw (init_opens r is_open, run)
        (wind_up-HasEnded (receive writev frames (before ++ turn ∷ after) w start p q)
          (receive_ends before after turn w start p q h))
