-- ===== src/Operations/Transfer.antt =====
-- The inner loop of DROS2/Operations/CopyOperation.h and DumpOperation.h: both move bytes from the tag file
-- to an external file in turns of at most `TRANSFER_SIZE`. The loops differ in one respect: a failed
-- seek ends the dump, but is only logged by the copy. Calls that stop making progress make the loop spin,
-- so it recurses on fuel.
pub mod Slices
pub mod Content
pub mod Ends
pub mod Calm
pub mod Keeps
use data_recorder.Base.{
  ℕ, zero, suc, ◌+◌, Bool, true, false, Option, none, some, List, [], ◌∷◌, ◌==◌, leb, ltb,
  if◌then◌else◌, not, ◌&&◌, word, sub_word,
}
use data_recorder.Streaming.Recorder.{WriteResult, wrote, failed}
use data_recorder.Operations.Files.{System, ReadResult, got, read_failed}

-- `TRANSFER_SIZE`
abbrev pub transfer_size : ℕ
transfer_size = 4194304

abbrev pub min : ℕ → ℕ → ℕ
min a b = if leb a b then a else b

-- `(size_t) lseek(...)`
abbrev pub offset_word : Option ℕ → ℕ
offset_word none = sub_word 0 1
offset_word (some p) = p

-- What a turn does: the loop goes on with nothing moved, or with so many bytes; or it leaves by `goto`.
pub data Move : Type 0 where
  again : Move
  moved : ℕ → Move
  give_up : Move

-- `EAGAIN`
abbrev pub of_errno : ℕ → Move
of_errno errno = if errno == 11 then again else give_up

unfoldable pub of_write : WriteResult → Move
of_write (failed errno) = of_errno errno
of_write (wrote n) = if n == 0 then again else moved n

-- The members that the loop changes.
pub record Cursor : Type 0 where
  pub cur_tag_offset : ℕ
  pub written : ℕ

unfoldable pub advance : ℕ → Cursor → Cursor
advance n c = record {
  cur_tag_offset = word (c.cur_tag_offset + n);
  written = word (c.written + n);
}

-- How the loop ends: by its condition, by `goto`, or not within the fuel.
pub data Ending : Type 0 where
  left : Cursor → Ending
  broken : Cursor → Ending
  spinning : Cursor → Ending

module _ {W : Type 0} (s : System W) (must_seek : Bool) (tagfile extfile size : ℕ) where
  -- The `write` of a turn.
  unfoldable pub write_turn : W → List ℕ → W × Move
  write_turn w [] = (w, again)
  write_turn w (byte ∷ bytes) =
      let (w', result) = s.write w extfile (byte ∷ bytes) in (w', of_write result)

  -- The `read` of a turn, and what follows it.
  unfoldable pub read_turn : W → Cursor → W × Move
  read_turn w c =
      let remaining = sub_word size c.written in
      let (w', result) = s.read w tagfile (min remaining transfer_size) in
      elim result [ got bytes ↦ write_turn w' bytes | read_failed errno ↦ (w', of_errno errno) ]

  -- The body of the loop.
  unfoldable pub turn : W → Cursor → W × Move
  turn w c =
      let (w', result) = s.lseek w tagfile c.cur_tag_offset in
      if must_seek && not (offset_word result == c.cur_tag_offset)
      then (w', give_up)
      else read_turn w' c

  unfoldable pub transfer : ℕ → W → Cursor → W × Ending
  transfer zero w c = (w, spinning c)
  transfer (suc fuel) w c =
      let (w0, interrupted) = s.poll w in
      if interrupted
      then (w0, left c)
      else if not (ltb c.written size)
      then (w0, left c)
      else let (w1, move) = turn w0 c in
        elim move [
          | again ↦ transfer fuel w1 c
          | moved n ↦ transfer fuel w1 (advance n c)
          | give_up ↦ (w1, broken c)
        ]
