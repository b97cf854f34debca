-- ===== src/Operations/Transfer/Calm.antt =====
-- A copy or a dump that nothing disturbs moves all of its bytes.
use data_recorder.Base.{
  ℕ, zero, suc, ◌+◌, ◌-◌, ◌≤◌, ◌<◌, ◌^◌, ◌≡◌, ◌≢◌, refl, ap, ◌∙◌, inl, inr, Bool, false, some, List,
  [], ◌∷◌, subst, ◌++◌, ◌==◌, not, ◌&&◌, arith, sub_word, length, take, drop, Bool-cases, ltb,
}
use data_recorder.Streaming.Recorder.{WriteResult, wrote, failed}
use data_recorder.Operations.Files.{System, IsPosix, read_failed}
use data_recorder.Operations.Transfer.{
  Cursor, give_up, of_errno, of_write, advance, Ending, left, broken, spinning, write_turn,
  read_turn, turn, transfer, min, transfer_size, offset_word,
}
use data_recorder.Operations.Transfer.Content.{
  ReadResult-cases, Move-cases, Seeks, cursor_of, transfer-IsPiece, IsPiece,
}
use data_recorder.Operations.Transfer.Ends.{IsPatient, transfer_ends}

-- No other thread interrupts the loop, and the only error is `EAGAIN`.
pub record IsCalm {W : Type 0} (s : System W) : Type 0 where
  pub not_interrupted : (w : W) → (s.poll w).1 ≡ false
  pub read_fails : (w : W) (f c e : ℕ) → (s.read w f c).1 ≡ read_failed e → e ≡ 11
  pub write_fails : (w : W) (f e : ℕ) (bytes : List ℕ) → (s.write w f bytes).1 ≡ failed e → e ≡ 11

-- The loop was left with all bytes moved, or not at all.
abbrev IsFull : ℕ → Ending → Type 0
IsFull size (left c) = size ≤ c.written
IsFull size (broken c) = ⊥
IsFull size (spinning c) = Unit

of_errno_calm : (e : ℕ) → e ≡ 11 → of_errno e ≢ give_up
of_errno_calm e h g = ground arith

of_write_calm : (r : WriteResult) → ((e : ℕ) → r ≡ failed e → e ≡ 11) → of_write r ≢ give_up
unfolding of_write
of_write_calm (wrote n) h g = ground arith
of_write_calm (failed e) h g = of_errno_calm e (h e refl) g

module _ {W : Type 0} (s : System W) (posix : IsPosix s) (calm : IsCalm s) (must_seek : Bool)
    (tagfile extfile size : ℕ) (apart : tagfile ≢ extfile) where
  write_turn-calm :
      (w : W) (bytes : List ℕ) → (write_turn s must_seek tagfile extfile size w bytes).1 ≢ give_up
  unfolding write_turn
  write_turn-calm w [] h = cc
  write_turn-calm w (b ∷ bytes) h =
      of_write_calm (s.write w extfile (b ∷ bytes)).1
        (λ e q. calm.write_fails w extfile e (b ∷ bytes) q) h

  read_turn-calm :
      (w : W) (c : Cursor) → (read_turn s must_seek tagfile extfile size w c).1 ≢ give_up
  unfolding read_turn
  read_turn-calm w c =
      let asked = min (sub_word size c.written) transfer_size in
      elim (ReadResult-cases (s.read w tagfile asked).1) [
        | inl (bytes, r) ↦ rw (r, read_turn) (write_turn-calm (s.read w tagfile asked).0 bytes)
        | inr (e, r) ↦ rw (r, read_turn) (of_errno_calm e (calm.read_fails w tagfile asked e r))
      ]

  turn-calm :
      (w : W) (c : Cursor)
      → Seeks s posix must_seek tagfile extfile size apart
      → (turn s must_seek tagfile extfile size w c).1 ≢ give_up
  unfolding turn
  turn-calm w c seeks =
      let pass : (must_seek && not (offset_word (some c.cur_tag_offset) == c.cur_tag_offset))
          ≡ false =
        ground arith in
      rw (seeks w c.cur_tag_offset, pass, turn)
        (read_turn-calm (s.lseek w tagfile c.cur_tag_offset).0 c)

  transfer-IsFull :
      (fuel : ℕ) (w : W) (c : Cursor)
      → Seeks s posix must_seek tagfile extfile size apart
      → IsFull size (transfer s must_seek tagfile extfile size fuel w c).1
  unfolding transfer
  transfer-IsFull zero w c seeks = tt
  transfer-IsFull (suc fuel) w c seeks =
      let w0 = (s.poll w).0 in
      let r = turn s must_seek tagfile extfile size w0 c in
      let goes = calm.not_interrupted w in
      elim (Bool-cases (ltb c.written size)) [
        | inr full ↦ rw (goes, full, transfer) (ground arith)
        | inl less ↦ elim (Move-cases r.1) [
          | inl e ↦ rw (goes, less, e, transfer) (transfer-IsFull fuel r.0 c seeks)
          | inr (inl (n, e)) ↦
              rw (goes, less, e, transfer) (transfer-IsFull fuel r.0 (advance n c) seeks)
          | inr (inr e) ↦ absurd (turn-calm w0 c seeks e)
        ]
      ]

  -- All bytes are moved.
  pub transfer_full :
      (patient : IsPatient s posix) (fuel : ℕ) (src before : List ℕ) (offset : ℕ) (w : W)
      (c : Cursor)
      → Seeks s posix must_seek tagfile extfile size apart
      → offset + size < 2 ^ 64
      → offset + size ≤ length src
      → IsPiece s posix must_seek tagfile extfile size apart src before offset w c
      → patient.patience w + (size - c.written) < fuel
      → let r = transfer s must_seek tagfile extfile size fuel w c in
        (c' : Cursor) × (r.1 ≡ left c')
        × (c'.written ≡ size)
        × IsPiece s posix must_seek tagfile extfile size apart src before offset r.0 c'
        × (posix.output r.0 extfile ≡ before ++ take size (drop offset src))
  transfer_full patient fuel src before offset w c seeks fits inside p enough =
      let (c', e) =
        transfer_ends s posix patient must_seek tagfile extfile size apart fuel src before offset w
          c (inr seeks) fits inside p enough in
      let full = transfer-IsFull fuel w c seeks in
      let piece =
        transfer-IsPiece s posix must_seek tagfile extfile size apart fuel src before offset w c
          (inr seeks) fits p in
      elim e [
        | inl is_left ↦
            let all = subst (λ x. IsFull size x) is_left full in
            let at_most = subst (λ x. (cursor_of x).written ≤ size) is_left piece.within in
            let sum : c'.written ≡ size = omega arith in
            (
              c',
              is_left,
              sum,
              subst
                  (λ x.
                    IsPiece s posix must_seek tagfile extfile size apart src before offset
                      (transfer s must_seek tagfile extfile size fuel w c).0 (cursor_of x))
                  is_left piece,
              piece.output_is
                  ∙ ap (λ n. before ++ take n (drop offset src))
                      (ap (λ x. (cursor_of x).written) is_left ∙ sum),
            )
        | inr is_broken ↦ absurd (subst (λ x. IsFull size x) is_broken full)
      ]
