-- ===== src/Operations/Transfer/Keeps.antt =====
-- What every call keeps, the loop of a copy or a dump keeps.
use data_recorder.Base.{
  ℕ, zero, suc, ◌≡◌, ◌≢◌, ◌≤◌, refl, ◌∙◌, inl, inr, Bool, List, [], ◌∷◌, ◌==◌, not, ◌&&◌, arith,
  sub_word, Bool-cases, ltb,
}
use data_recorder.Operations.Files.{System, IsPosix}
use data_recorder.Operations.Transfer.{
  Cursor, advance, write_turn, read_turn, turn, transfer, min, transfer_size, offset_word,
}
use data_recorder.Operations.Transfer.Content.{ReadResult-cases, Move-cases}
use data_recorder.Operations.Transfer.Ends.{IsPatient}

-- `P` survives every call that the loop makes.
pub record IsKept {W : Type 0} (s : System W) (tagfile extfile : ℕ) (P : W → Type 0) : Type 0 where
  pub on_poll : (w : W) → P w → P (s.poll w).0
  pub on_lseek : (w : W) (o : ℕ) → P w → P (s.lseek w tagfile o).0
  pub on_read : (w : W) (c : ℕ) → P w → P (s.read w tagfile c).0
  pub on_write : (w : W) (bytes : List ℕ) → P w → P (s.write w extfile bytes).0

module _ {W : Type 0} (s : System W) (must_seek : Bool) (tagfile extfile size : ℕ) (P : W → Type 0)
    (kept : IsKept s tagfile extfile P) where
  write_turn-keeps :
      (w : W) (bytes : List ℕ) → P w → P (write_turn s must_seek tagfile extfile size w bytes).0
  unfolding write_turn
  write_turn-keeps w [] h = h
  write_turn-keeps w (b ∷ bytes) h = kept.on_write w (b ∷ bytes) h

  turn-keeps : (w : W) (c : Cursor) → P w → P (turn s must_seek tagfile extfile size w c).0
  unfolding turn read_turn
  turn-keeps w c h =
      let w1 = (s.lseek w tagfile c.cur_tag_offset).0 in
      let h1 = kept.on_lseek w c.cur_tag_offset h in
      let asked = min (sub_word size c.written) transfer_size in
      let h2 = kept.on_read w1 asked h1 in
      elim (Bool-cases (
        must_seek
        && not (offset_word (s.lseek w tagfile c.cur_tag_offset).1 == c.cur_tag_offset))) [
          | inl astray ↦ rw (astray, turn) h1
          | inr there ↦ elim (ReadResult-cases (s.read w1 tagfile asked).1) [
            | inl (bytes, e) ↦
                rw (there, turn, e, read_turn)
                  (write_turn-keeps (s.read w1 tagfile asked).0 bytes h2)
            | inr (errno, e) ↦ rw (there, turn, e, read_turn) h2
          ]
        ]

  pub transfer-keeps :
      (fuel : ℕ) (w : W) (c : Cursor)
      → P w
      → P (transfer s must_seek tagfile extfile size fuel w c).0
  unfolding transfer
  transfer-keeps zero w c h = h
  transfer-keeps (suc fuel) w c h =
      let w0 = (s.poll w).0 in
      let h0 = kept.on_poll w h in
      let r = turn s must_seek tagfile extfile size w0 c in
      let h1 = turn-keeps w0 c h0 in
      elim (Bool-cases (s.poll w).1) [
        | inl stop ↦ rw (stop, transfer) h0
        | inr goes ↦ elim (Bool-cases (ltb c.written size)) [
          | inr full ↦ rw (goes, full, transfer) h0
          | inl less ↦ elim (Move-cases r.1) [
            | inl e ↦ rw (goes, less, e, transfer) (transfer-keeps fuel r.0 c h1)
            | inr (inl (n, e)) ↦
                rw (goes, less, e, transfer) (transfer-keeps fuel r.0 (advance n c) h1)
            | inr (inr e) ↦ rw (goes, less, e, transfer) h1
          ]
        ]
      ]

module _ {W : Type 0} (s : System W) (posix : IsPosix s) (must_seek : Bool)
    (tagfile extfile size : ℕ) where
  -- What had been written to another file.
  pub transfer-others :
      (fuel : ℕ) (w : W) (c : Cursor) (f : ℕ)
      → f ≢ extfile
      → posix.output (transfer s must_seek tagfile extfile size fuel w c).0 f ≡ posix.output w f
  transfer-others fuel w c f h =
      transfer-keeps s must_seek tagfile extfile size (λ v. posix.output v f ≡ posix.output w f)
        (record {
          on_poll = λ v p. posix.output-poll v f ∙ p;
          on_lseek = λ v o p. posix.output-lseek v tagfile o f ∙ p;
          on_read = λ v k p. posix.output-read v tagfile k f ∙ p;
          on_write = λ v bytes p. posix.output-write_other v extfile bytes f h ∙ p;
        })
        fuel w c refl

  pub transfer-patience :
      (patient : IsPatient s posix) (fuel : ℕ) (w : W) (c : Cursor)
      → patient.patience (transfer s must_seek tagfile extfile size fuel w c).0 ≤ patient.patience w
  transfer-patience patient fuel w c =
      transfer-keeps s must_seek tagfile extfile size (λ v. patient.patience v ≤ patient.patience w)
        (record {
          on_poll = λ v p. let q = patient.patience-poll v in omega arith;
          on_lseek = λ v o p. let q = patient.patience-lseek v tagfile o in omega arith;
          on_read = λ v k p. let q = patient.patience-read v tagfile k in omega arith;
          on_write = λ v bytes p. let q = patient.patience-write v extfile bytes in omega arith;
        })
        fuel w c (omega arith)
