-- ===== src/Operations/Transfer/Ends.antt =====
-- When the loop of a copy or a dump ends, and when it has moved all bytes.
use data_recorder.Base.{
  ℕ, zero, suc, ◌+◌, ◌-◌, ◌≤◌, ◌<◌, ◌^◌, ◌≡◌, ◌≢◌, refl, sym, ap, ◌∙◌, ◌⊎◌, inl, inr, Bool, true,
  List, [], ◌∷◌, subst, arith, sub_word, length, ltb→lt, Bool-cases, ltb,
}
use data_recorder.Streaming.Recorder.{wrote, failed}
use data_recorder.Operations.Files.{System, IsPosix, got, read_failed}
use data_recorder.Operations.Transfer.{
  Cursor, Move, again, moved, of_errno, of_write, advance, left, broken, write_turn, read_turn,
  turn, transfer, min, transfer_size,
}
use data_recorder.Operations.Transfer.Content.{
  WriteResult-cases, ReadResult-cases, Move-cases, Seeks, turn-HasMoved, IsPiece, turn_seeks,
  moved_by, next-IsPiece, same-IsPiece, poll-IsPiece,
}

-- A system in which a call is refused or answered with 0 bytes only so many times, while there are bytes to
-- read: `patience` counts down to it.
pub record IsPatient {W : Type 0} (s : System W) (posix : IsPosix s) : Type 0 where
  pub patience : W → ℕ
  pub patience-poll : (w : W) → patience (s.poll w).0 ≤ patience w
  pub patience-lseek : (w : W) (f o : ℕ) → patience (s.lseek w f o).0 ≤ patience w
  pub patience-read : (w : W) (f c : ℕ) → patience (s.read w f c).0 ≤ patience w
  pub patience-write :
      (w : W) (f : ℕ) (bytes : List ℕ) → patience (s.write w f bytes).0 ≤ patience w
  pub read_idle :
      (w : W) (f c : ℕ)
      → 0 < c
      → posix.position w f < length (posix.input w f)
      → ((s.read w f c).1 ≡ got []) ⊎ ((s.read w f c).1 ≡ read_failed 11)
      → patience (s.read w f c).0 < patience w
  pub write_idle :
      (w : W) (f b : ℕ) (bytes : List ℕ)
      → ((s.write w f (b ∷ bytes)).1 ≡ wrote 0) ⊎ ((s.write w f (b ∷ bytes)).1 ≡ failed 11)
      → patience (s.write w f (b ∷ bytes)).0 < patience w

pub of_errno_again : (e : ℕ) → of_errno e ≡ again → e ≡ 11
of_errno_again e h = ground arith

of_errno-moved : (e n : ℕ) → of_errno e ≢ moved n
of_errno-moved e n h = ground arith

of_write_again : (n : ℕ) → of_write (wrote n) ≡ again → n ≡ 0
unfolding of_write
of_write_again n h = ground arith

of_write-moved : (n k : ℕ) → of_write (wrote n) ≡ moved k → 0 < k
unfolding of_write
of_write-moved n k h = ground arith

sum_written :
    (n : ℕ) (c : Cursor) (size : ℕ)
    → n ≤ sub_word size c.written
    → c.written ≤ size
    → size < 2 ^ 64
    → (advance n c).written ≡ c.written + n
unfolding advance
sum_written n c size h l small = omega arith

module _ {W : Type 0} (s : System W) (posix : IsPosix s) (patient : IsPatient s posix)
    (must_seek : Bool) (tagfile extfile size : ℕ) (apart : tagfile ≢ extfile) where
  -- A turn uses up patience, or moves some bytes.
  record HasProgressed (w w' : W) (move : Move) : Type 0 where
    calmer : patient.patience w' ≤ patient.patience w
    idle : move ≡ again → patient.patience w' < patient.patience w
    some_bytes : (n : ℕ) → move ≡ moved n → 0 < n

  write_turn-HasProgressed :
      (w : W) (b : ℕ) (bytes : List ℕ)
      → let r = write_turn s must_seek tagfile extfile size w (b ∷ bytes) in HasProgressed w r.0 r.1
  unfolding write_turn of_write
  write_turn-HasProgressed w b bytes = elim (WriteResult-cases (s.write w extfile (b ∷ bytes)).1) [
    | inl (n, r) ↦
        rw (r, write_turn)
          (record {
            calmer = patient.patience-write w extfile (b ∷ bytes);
            idle =
                λ h. patient.write_idle w extfile b bytes (inl (r ∙ ap wrote (of_write_again n h)));
            some_bytes = λ k h. of_write-moved n k h;
          })
    | inr (e, r) ↦
        rw (r, write_turn)
          (record {
            calmer = patient.patience-write w extfile (b ∷ bytes);
            idle = λ h.
                patient.write_idle w extfile b bytes (inr (r ∙ ap failed (of_errno_again e h)));
            some_bytes = λ k h. absurd (of_errno-moved e k h);
          })
  ]

  asked_some :
      (written : ℕ) → written < size → size < 2 ^ 64 → 0 < min (sub_word size written) transfer_size
  asked_some written h small = ground arith

  read_turn-HasProgressed :
      (w : W) (c : Cursor)
      → c.written < size
      → size < 2 ^ 64
      → posix.position w tagfile < length (posix.input w tagfile)
      → let r = read_turn s must_seek tagfile extfile size w c in HasProgressed w r.0 r.1
  unfolding read_turn write_turn
  read_turn-HasProgressed w c less small more =
      let asked = min (sub_word size c.written) transfer_size in
      let w1 = (s.read w tagfile asked).0 in
      let calm = patient.patience-read w tagfile asked in
      let some_asked = asked_some c.written less small in
      elim (ReadResult-cases (s.read w tagfile asked).1) [
        | inl ([], r) ↦
            rw (r, read_turn)
              (record {
                calmer = calm;
                idle = λ h. patient.read_idle w tagfile asked some_asked more (inl r);
                some_bytes = λ k h. cc;
              })
        | inl (b ∷ bytes, r) ↦
            let h = write_turn-HasProgressed w1 b bytes in
            rw (r, read_turn)
              (record {
                calmer = let a = h.calmer in omega arith;
                idle = λ q. let a = h.idle q in omega arith;
                some_bytes = h.some_bytes;
              })
        | inr (e, r) ↦
            rw (r, read_turn)
              (record {
                calmer = calm;
                idle = λ h.
                    patient.read_idle w tagfile asked some_asked more
                      (inr (r ∙ ap read_failed (of_errno_again e h)));
                some_bytes = λ k h. absurd (of_errno-moved e k h);
              })
      ]

  turn-HasProgressed :
      (w : W) (c : Cursor)
      → (must_seek ≡ true) ⊎ Seeks s posix must_seek tagfile extfile size apart
      → c.written < size
      → size < 2 ^ 64
      → c.cur_tag_offset < 2 ^ 64 - 1
      → c.cur_tag_offset < length (posix.input w tagfile)
      → let r = turn s must_seek tagfile extfile size w c in HasProgressed w r.0 r.1
  turn-HasProgressed w c seeks less small before_end more =
      let w1 = (s.lseek w tagfile c.cur_tag_offset).0 in
      let calm = patient.patience-lseek w tagfile c.cur_tag_offset in
      elim (turn_seeks s posix must_seek tagfile extfile size apart w c seeks before_end) [
        | inl e ↦ rw e (record { calmer = calm; idle = λ h. cc; some_bytes = λ k h. cc })
        | inr (e, at) ↦
            let there : posix.position w1 tagfile < length (posix.input w1 tagfile) =
              rw (at, posix.input-lseek w tagfile c.cur_tag_offset tagfile) more in
            let h = read_turn-HasProgressed w1 c less small there in
            rw e (record {
              calmer = let a = h.calmer in omega arith;
              idle = λ q. let a = h.idle q in omega arith;
              some_bytes = h.some_bytes;
            })
      ]

  -- The loop ends, where the piece lies within the tag file.
  pub transfer_ends :
      (fuel : ℕ) (src before : List ℕ) (offset : ℕ) (w : W) (c : Cursor)
      → (must_seek ≡ true) ⊎ Seeks s posix must_seek tagfile extfile size apart
      → offset + size < 2 ^ 64
      → offset + size ≤ length src
      → IsPiece s posix must_seek tagfile extfile size apart src before offset w c
      → patient.patience w + (size - c.written) < fuel
      → (c' : Cursor) × (((transfer s must_seek tagfile extfile size fuel w c).1 ≡ left c')
          ⊎ ((transfer s must_seek tagfile extfile size fuel w c).1 ≡ broken c'))
  unfolding transfer
  transfer_ends zero src before offset w c seeks fits inside p enough = absurd (omega arith)
  transfer_ends (suc fuel) src before offset w c seeks fits inside p enough =
      let w0 = (s.poll w).0 in
      let p0 = poll-IsPiece s posix must_seek tagfile extfile size apart src before offset w c p in
      let r = turn s must_seek tagfile extfile size w0 c in
      let calm = patient.patience-poll w in
      elim (Bool-cases (s.poll w).1) [
        | inl stop ↦ (c, inl (rw (stop, transfer) refl))
        | inr goes ↦ elim (Bool-cases (ltb c.written size)) [
          | inr full ↦ (c, inl (rw (goes, full, transfer) refl))
          | inl less ↦
              let at = p.place in
              let lt = ltb→lt c.written size less in
              let more : c.cur_tag_offset < length (posix.input w0 tagfile) =
                rw p0.input_is (omega arith) in
              let small : c.cur_tag_offset < 2 ^ 64 - 1 = omega arith in
              let h = turn-HasMoved s posix must_seek tagfile extfile size apart w0 c seeks small in
              let g = turn-HasProgressed w0 c seeks lt (omega arith) small more in
              let less_calm = g.calmer in
              elim (Move-cases r.1) [
                | inl e ↦
                    let used = g.idle e in
                    rw (goes, less, e, transfer)
                      (transfer_ends fuel src before offset r.0 c seeks fits inside
                        (same-IsPiece s posix must_seek tagfile extfile size apart src before offset
                          w0 r.0 c r.1 p0 h (ap moved_by e))
                        (omega arith))
                | inr (inl (n, e)) ↦
                    let used = g.some_bytes n e in
                    let next =
                      next-IsPiece s posix must_seek tagfile extfile size apart src before offset w0
                        r.0 c r.1 n fits p0 h (sym (ap moved_by e)) in
                    let progress =
                      sum_written n c size
                        (subst (λ m. moved_by m ≤ sub_word size c.written) e h.bounded) p.within
                        (omega arith) in
                    rw (goes, less, e, transfer)
                      (transfer_ends fuel src before offset r.0 (advance n c) seeks fits inside next
                        (omega arith))
                | inr (inr e) ↦ (c, inr (rw (goes, less, e, transfer) refl))
              ]
        ]
      ]
