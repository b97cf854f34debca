-- ===== src/Streaming/Recorder/Script.antt =====
-- The loop of writeTicket against a file system that answers from a script, and keeps the vectors
-- that it was asked to write.
use data_recorder.Base.{
  ℕ, zero, suc, ◌+◌, ◌*◌, ◌≡◌, ◌≢◌, ◌<◌, Bool, true, List, [], ◌∷◌, ◌++◌, arith, word, sub_word,
  length, All, ◌∙◌,
}
use data_recorder.Streaming.Tickets.{Ticket, Pool, put}
use data_recorder.Streaming.Buffer.{Iovec}
use data_recorder.Streaming.Recorder.{
  Recorder, conclude, write_ticket, write_loop, WriteResult, wrote, judge, try_again, go_on, finish,
  done, advance, vector_of, is_writable,
}

-- The answers to come, and the vectors so far.
pub record Script : Type 0 where
  pub answers : List WriteResult
  pub asked : List (List Iovec)

-- A script that has ended answers with 0 bytes.
abbrev pub scripted : Script → List Iovec → Script × WriteResult
scripted w io = elim w.answers [
  | [] ↦ (record { answers = []; asked = w.asked ++ io ∷ [] }, wrote 0)
  | a ∷ rest ↦ (record { answers = rest; asked = w.asked ++ io ∷ [] }, a)
]

-- Nothing was written and the call may be repeated.
abbrev pub IsRetry : WriteResult → Type 0
IsRetry a = (continuous : Bool) (bytes : ℕ) → judge continuous bytes a ≡ try_again

abbrev pub repeated : ℕ → List Iovec → List (List Iovec)
repeated zero io = []
repeated (suc n) io = io ∷ repeated n io

pub scripted_step :
    (a : WriteResult) (answers : List WriteResult) (asked : List (List Iovec)) (n : ℕ)
    (continuous : Bool) (io : List Iovec) (bytes written : ℕ)
    → judge continuous bytes a ≡ try_again
    → write_loop scripted
        (suc n)
        (record { answers = a ∷ answers; asked = asked })
        continuous
        io
        bytes
        written
      ≡ write_loop scripted n
          (record { answers = answers; asked = asked ++ io ∷ [] })
          continuous
          io
          bytes
          written
unfolding write_loop judge
scripted_step a answers asked n continuous io bytes written e = rw e

pub write_loop-retries :
    (answers rest : List WriteResult) (asked : List (List Iovec)) (n : ℕ) (continuous : Bool)
    (io : List Iovec) (bytes written : ℕ)
    → All IsRetry answers
    → (asked' : List (List Iovec)) × (write_loop scripted
          (length answers + n)
          (record { answers = answers ++ rest; asked = asked })
          continuous
          io
          bytes
          written
        ≡ write_loop scripted n
            (record { answers = rest; asked = asked' })
            continuous
            io
            bytes
            written)
write_loop-retries [] rest asked n continuous io bytes written h =
    let same : 0 + n ≡ n = omega arith in (asked, rw same)
write_loop-retries (a ∷ answers) rest asked n continuous io bytes written h =
    let (asked', e) =
      write_loop-retries answers rest (asked ++ io ∷ []) n continuous io bytes written h.1 in
    let more : suc (length answers) + n ≡ suc (length answers + n) = omega arith in
    (
      asked',
      rw more (
          scripted_step a (answers ++ rest) asked (length answers + n) continuous io bytes written
            (h.0 continuous bytes)
          ∙ e),
    )

-- A ticket whose frames stand one after the other, from `base` on, and that can be written.
pub record IsWritable (r : Recorder) (t : Ticket) (frames : List Iovec) (base bytes : ℕ)
    : Type 0 where
  pub open_file : is_writable r.outfile ≡ true
  pub contiguous : t.continuous ≡ true
  pub first :
      (len : ℕ) × (rest : List Iovec) × (frames ≡ record { iov_base = base; iov_len = len } ∷ rest)
  pub size : bytes ≡ word (t.cnt_used * t.fsize)
  pub some_bytes : bytes ≢ 0

abbrev pub whole : ℕ → ℕ → List Iovec
whole base bytes = record { iov_base = base; iov_len = bytes } ∷ []

-- What `writeTicket` comes to for such a ticket.
pub write_ticket_loop :
    (w : Script) (frames : List Iovec) (r : Recorder) (p : Pool) (id base bytes : ℕ)
    → IsWritable r (p.tickets id) frames base bytes
    → let end = write_loop scripted 10 w true (whole base bytes) bytes 0 in
      write_ticket scripted w frames r p id ≡ (conclude end.1 r, end.0, put p id)
unfolding write_ticket vector_of
write_ticket_loop w frames r p id base bytes v =
    let (len, rest, e) = v.first in
    rw (v.open_file, v.contiguous, e, v.size, write_ticket, vector_of)

pub write_loop_complete :
    (rest : List WriteResult) (asked : List (List Iovec)) (n bytes written : ℕ) (io : List Iovec)
    → bytes ≢ 0
    → (asked' : List (List Iovec)) × (write_loop scripted
          (suc n)
          (record { answers = wrote bytes ∷ rest; asked = asked })
          true
          io
          bytes
          written
        ≡ (record { answers = rest; asked = asked' }, done (word (written + bytes))))
unfolding write_loop judge
write_loop_complete rest asked n bytes written io h = (asked ++ io ∷ [], ground (arith, h))

pub judge_partial : (k bytes : ℕ) → 0 < k → k < bytes → judge true bytes (wrote k) ≡ go_on k
unfolding judge
judge_partial k bytes h l = ground (arith, h, l)

pub judge_all : (k : ℕ) → 0 < k → judge true k (wrote k) ≡ finish k
unfolding judge
judge_all k h = ground (arith, h)

pub write_loop_go_on :
    (k bytes written n : ℕ) (rest : List WriteResult) (asked : List (List Iovec)) (io : List Iovec)
    → judge true bytes (wrote k) ≡ go_on k
    → write_loop scripted
        (suc n)
        (record { answers = wrote k ∷ rest; asked = asked })
        true
        io
        bytes
        written
      ≡ write_loop scripted n
          (record { answers = rest; asked = asked ++ io ∷ [] })
          true
          (advance k io)
          (sub_word bytes k)
          (word (written + k))
unfolding write_loop
write_loop_go_on k bytes written n rest asked io e = rw (e, write_loop)

pub write_loop-finish :
    (k written n : ℕ) (rest : List WriteResult) (asked : List (List Iovec)) (io : List Iovec)
    → judge true k (wrote k) ≡ finish k
    → write_loop scripted
        (suc n)
        (record { answers = wrote k ∷ rest; asked = asked })
        true
        io
        k
        written
      ≡ (record { answers = rest; asked = asked ++ io ∷ [] }, done (word (written + k)))
unfolding write_loop
write_loop-finish k written n rest asked io e = rw (e, write_loop)
