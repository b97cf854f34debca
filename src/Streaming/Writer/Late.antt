-- ===== src/Streaming/Writer/Late.antt =====
-- The limit of time of a recording, which its thread never reaches.
use data_recorder.Base.{
  ℕ, ◌≡◌, refl, sym, ap, subst, ◌∙◌, inl, inr, Bool, true, false, some, List, [], ◌∷◌, ◌++◌, ◌||◌,
  arith, Bool-cases, Option-cases, Ordering-cases, All, if◌then◌else◌,
}
use data_recorder.Time.{TimeSlot, TimeStamp, compare_slot_stamp}
use data_recorder.Time.Stamps.{IsStamp}
use data_recorder.Time.Slots.{compare_slot_stamp_lem}
use data_recorder.Streaming.Tickets.{Pool, Subscriber, put, get_next}
use data_recorder.Streaming.Buffer.{Iovec}
use data_recorder.Streaming.Recorder.{WriteResult, is_writable, vector_of}
use data_recorder.Streaming.Writer.{
  FileWriter, TicketEnd, counted, partial, io_failed, stop_recording, can_continue, is_open_file,
  on_disconnected, on_uninit, on_done, on_init, on_connected, on_receive_loop_start, notify, Round,
  round, receive, wind_up, run, conclude, write_ticket, check_size, notify_start,
  on_ticket_buffer_empty, on_ticket_received, write_loop, retry_count,
}
use data_recorder.Streaming.Writer.Runs.{Stops, run_ends}

-- What the thread leaves alone.
pub record SameLimits (r r' : FileWriter) : Type 0 where
  pub same_ts : r'.ts ≡ r.ts
  pub same_late : r'.time_limit_reached ≡ r.time_limit_reached

notify_start-SameLimits : (r : FileWriter) → SameLimits r (notify_start r)
unfolding notify_start notify
notify_start-SameLimits r = record { same_ts = ground arith; same_late = ground arith }

can_continue-SameLimits : (r : FileWriter) → SameLimits r (can_continue r).0
unfolding can_continue notify
can_continue-SameLimits r = record { same_ts = ground arith; same_late = ground arith }

check_size-SameLimits : (r : FileWriter) → SameLimits r (check_size r)
unfolding check_size
check_size-SameLimits r = record { same_ts = ground arith; same_late = ground arith }

conclude-SameLimits : (e : TicketEnd) (r : FileWriter) → SameLimits r (conclude e r)
unfolding conclude
conclude-SameLimits (counted n) r = record { same_ts = refl; same_late = refl }
conclude-SameLimits partial r = record { same_ts = refl; same_late = refl }
conclude-SameLimits io_failed r = record { same_ts = refl; same_late = refl }

trans : {a b c : FileWriter} → SameLimits a b → SameLimits b c → SameLimits a c
trans h k = record { same_ts = k.same_ts ∙ h.same_ts; same_late = k.same_late ∙ h.same_late }

maybe_stop : (b : Bool) (r : FileWriter) → SameLimits r (if b then stop_recording r else r)
unfolding stop_recording
maybe_stop true r = record { same_ts = refl; same_late = refl }
maybe_stop false r = record { same_ts = refl; same_late = refl }

loop_start-SameLimits : (r : FileWriter) → SameLimits r (on_receive_loop_start r).0
unfolding on_receive_loop_start can_continue notify
loop_start-SameLimits r = record { same_ts = ground arith; same_late = ground arith }

begin-SameLimits : (r : FileWriter) → SameLimits r (on_connected (on_init r).0)
unfolding on_connected on_init notify
begin-SameLimits r = record { same_ts = ground arith; same_late = ground arith }

or_false : (a b : Bool) → b ≡ false → (a || b) ≡ a
or_false a b e = ground arith

wound_up :
    {W : Type 0} (writev : W → List Iovec → W × WriteResult) (frames : ℕ → List Iovec)
    (s : FileWriter × W × Pool × Subscriber × Bool)
    → (wind_up writev frames s).0.time_limit_reached ≡ s.0.time_limit_reached
unfolding wind_up on_disconnected on_uninit on_done notify
wound_up writev frames (r, w, p, q, false) = refl
wound_up writev frames (r, w, p, q, true) = elim (Bool-cases r.owner) [
  | inl e ↦ rw e refl
  | inr e ↦ rw e refl
]

empty-SameLimits :
    (now : TimeStamp) (r : FileWriter)
    → IsStamp r.ts.start
    → IsStamp now
    → SameLimits r (on_ticket_buffer_empty now r).0
unfolding on_ticket_buffer_empty
empty-SameLimits now r h k =
    let never = (compare_slot_stamp_lem r.ts now h k).1 in
    elim (Ordering-cases (compare_slot_stamp r.ts now)) [
      | inl e ↦ rw (e, on_ticket_buffer_empty) (can_continue-SameLimits r)
      | inr (inl e) ↦
          rw (e, on_ticket_buffer_empty)
            (trans (notify_start-SameLimits r) (can_continue-SameLimits (notify_start r)))
      | inr (inr e) ↦ absurd (never e)
    ]

module _ {W : Type 0} (writev : W → List Iovec → W × WriteResult) (frames : ℕ → List Iovec) where
  write_ticket-SameLimits :
      (w : W) (r : FileWriter) (p : Pool) (id : ℕ)
      → SameLimits r (write_ticket writev frames w r p id).0
  unfolding write_ticket
  write_ticket-SameLimits w r p id =
      let io = vector_of (p.tickets id) (frames id) in
      elim (Bool-cases (is_writable r.file)) [
        | inl e ↦
            rw (e, write_ticket)
              (conclude-SameLimits
                (write_loop writev retry_count w (p.tickets id).continuous io.0 io.1 0).1 r)
        | inr e ↦ rw (e, write_ticket) (record { same_ts = refl; same_late = refl })
      ]

  received-SameLimits :
      (now : TimeStamp) (w : W) (r : FileWriter) (p : Pool) (id : ℕ)
      → IsStamp r.ts.start
      → IsStamp now
      → SameLimits r (on_ticket_received writev frames now w r p id).0
  unfolding on_ticket_received
  received-SameLimits now w r p id h k =
      let never = (compare_slot_stamp_lem r.ts now h k).1 in
      let r1 = (can_continue r).0 in
      let p1 = if (can_continue r).1 then p else put p id in
      let a = can_continue-SameLimits r in
      let b = notify_start-SameLimits r1 in
      let s = write_ticket writev frames w (notify_start r1) p1 id in
      let c = write_ticket-SameLimits w (notify_start r1) p1 id in
      let d = check_size-SameLimits s.0 in
      elim (Ordering-cases (compare_slot_stamp r.ts now)) [
        | inl e ↦ rw (e, on_ticket_received) (trans a (can_continue-SameLimits r1))
        | inr (inl e) ↦
            rw (e, on_ticket_received)
              (trans a (trans b (trans c (trans d (can_continue-SameLimits (check_size s.0))))))
        | inr (inr e) ↦ absurd (never e)
      ]

  round-SameLimits :
      (turn : Round) (w : W) (r : FileWriter) (p : Pool) (q : Subscriber)
      → IsStamp r.ts.start
      → IsStamp turn.now
      → SameLimits r (round writev frames turn w r p q).0
  unfolding round on_receive_loop_start stop_recording
  round-SameLimits turn w r p q h k =
      let r0 = if turn.stop_before then stop_recording r else r in
      let s = on_receive_loop_start r0 in
      let o = turn.others p q in
      let n = get_next o.0 o.1 in
      let r2 = if turn.stop_between then stop_recording s.0 else s.0 in
      let a : SameLimits r r0 = maybe_stop turn.stop_before r in
      let b : SameLimits r0 s.0 = loop_start-SameLimits r0 in
      let c : SameLimits s.0 r2 = maybe_stop turn.stop_between s.0 in
      let all = trans a (trans b c) in
      let start : IsStamp r2.ts.start =
        subst (λ (ts : TimeSlot). IsStamp ts.start) (sym all.same_ts) h in
      elim (Bool-cases s.1) [
        | inr e ↦ rw (e, round) (trans a b)
        | inl e ↦ elim (Option-cases n.2) [
          | inl f ↦ rw (e, f, round) (trans all (empty-SameLimits turn.now r2 start k))
          | inr (id, f) ↦
              rw (e, f, round) (trans all (received-SameLimits turn.now w r2 n.0 id start k))
        ]
      ]

  receive-SameLimits :
      (turns : List Round) (w : W) (r : FileWriter) (p : Pool) (q : Subscriber)
      → IsStamp r.ts.start
      → All (λ (t : Round). IsStamp t.now) turns
      → SameLimits r (receive writev frames turns w r p q).0
  unfolding receive round
  receive-SameLimits [] w r p q h k = record { same_ts = refl; same_late = refl }
  receive-SameLimits (turn ∷ turns) w r p q h k =
      let s = round writev frames turn w r p q in
      let a = round-SameLimits turn w r p q h k.0 in
      let start = subst (λ (ts : TimeSlot). IsStamp ts.start) (sym a.same_ts) h in
      elim (Bool-cases turn.interrupted) [
        | inl e ↦ rw (e, receive) (record { same_ts = refl; same_late = refl })
        | inr e ↦ elim (Bool-cases s.4) [
          | inl f ↦ rw (e, f, receive) a
          | inr f ↦
              rw (e, f, receive) (trans a (receive-SameLimits turns s.1 s.0 s.2 s.3 start k.1))
        ]
      ]

  run-receive :
      (buf : Bool) (rounds : List Round) (w : W) (r : FileWriter) (p : Pool) (q : Subscriber)
      → let s = receive writev frames rounds w (on_connected (on_init r).0) p q in
        buf ≡ true
        → is_open_file r.file ≡ true
        → (run writev frames buf rounds w r p q).0.time_limit_reached ≡ s.0.time_limit_reached
  unfolding run on_init
  run-receive buf rounds w r p q b is_open =
      rw (b, is_open, run)
        (wound_up writev frames (receive writev frames rounds w (on_connected (on_init r).0) p q))

  -- However long a recording runs, the limit of time is never reached: when the thread has been stopped, the
  -- file is marked as complete only if the limit of size was reached, also where the slot was over long
  -- before. The file is open at the start and the limit not yet reached, the start of the slot and all
  -- readings of the clock are stamps of a day that fit, another thread stops or interrupts one of the
  -- rounds, and the owner's callbacks leave the file alone.
  pub run_never_late :
      (before after : List Round) (turn : Round) (w : W) (r : FileWriter) (p : Pool)
      (q : Subscriber)
      → is_open_file r.file ≡ true
      → r.time_limit_reached ≡ false
      → IsStamp r.ts.start
      → All (λ (t : Round). IsStamp t.now) (before ++ turn ∷ after)
      → Stops turn
      → let s = run writev frames true (before ++ turn ∷ after) w r p q in
        (s.0.time_limit_reached ≡ false) × (s.0.op_complete ≡ some s.0.size_limit_reached)
  unfolding on_connected on_init notify
  run_never_late before after turn w r p q is_open fresh start times h =
      let rounds = before ++ turn ∷ after in
      let ends = run_ends writev frames before after turn w r p q is_open h in
      let r0 = on_connected (on_init r).0 in
      let begin = begin-SameLimits r in
      let kept =
        receive-SameLimits rounds w r0 p q
          (subst (λ (ts : TimeSlot). IsStamp ts.start) (sym begin.same_ts) start) times in
      let late : (run writev frames true rounds w r p q).0.time_limit_reached ≡ false =
        run-receive true rounds w r p q refl is_open ∙ kept.same_late ∙ begin.same_late ∙ fresh in
      (
        late,
        ends.marked
            ∙ ap some (
                or_false (run writev frames true rounds w r p q).0.size_limit_reached
                  (run writev frames true rounds w r p q).0.time_limit_reached late),
      )
