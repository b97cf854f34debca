-- ===== src/Operations/Transfer/Content.antt =====
-- What the loop of a copy or a dump has written at any time: a piece of the tag file, byte for byte.
use data_recorder.Base.{
  ℕ, zero, suc, ◌+◌, ◌-◌, ◌≤◌, ◌<◌, ◌^◌, ◌≡◌, ◌≢◌, refl, sym, ap, ◌∙◌, ◌⊎◌, inl, inr, Bool, true,
  false, Option, none, some, List, [], ◌∷◌, subst, ◌++◌, ◌==◌, not, ◌&&◌, arith, word, sub_word,
  length, take, drop, ltb→lt, Bool-cases, ltb,
}
use data_recorder.Streaming.Recorder.{WriteResult, wrote, failed}
use data_recorder.Operations.Files.{System, IsPosix, ReadResult, got, read_failed}
use data_recorder.Operations.Transfer.{
  Cursor, Move, again, moved, give_up, of_errno, of_write, advance, Ending, left, broken, spinning,
  write_turn, read_turn, turn, transfer, min, transfer_size, offset_word,
}
use data_recorder.Operations.Transfer.Slices.{
  append_nil, append_assoc, take-take, drop-drop, take-add,
}

abbrev pub moved_by : Move → ℕ
moved_by again = 0
moved_by (moved n) = n
moved_by give_up = 0

abbrev pub cursor_of : Ending → Cursor
cursor_of (left c) = c
cursor_of (broken c) = c
cursor_of (spinning c) = c

pub of_errno_lem : (e : ℕ) → moved_by (of_errno e) ≡ 0
of_errno_lem e = elim (Bool-cases (e == 11)) [ inl h ↦ rw h refl | inr h ↦ rw h refl ]

pub of_write_lem : (n : ℕ) → moved_by (of_write (wrote n)) ≡ n
unfolding of_write
of_write_lem n = ground arith

offset_word-some :
    (r : Option ℕ) (o : ℕ) → (offset_word r == o) ≡ true → o < 2 ^ 64 - 1 → r ≡ some o
offset_word-some none o e h = absurd (ground arith)
offset_word-some (some p) o e h = let q : p ≡ o = ground arith in ap some q

pub WriteResult-cases : (r : WriteResult) → ((n : ℕ) × (r ≡ wrote n)) ⊎ ((e : ℕ) × (r ≡ failed e))
WriteResult-cases (wrote n) = inl (n, refl)
WriteResult-cases (failed e) = inr (e, refl)

pub ReadResult-cases :
    (r : ReadResult) → ((bytes : List ℕ) × (r ≡ got bytes)) ⊎ ((e : ℕ) × (r ≡ read_failed e))
ReadResult-cases (got bytes) = inl (bytes, refl)
ReadResult-cases (read_failed e) = inr (e, refl)

pub Move-cases : (m : Move) → (m ≡ again) ⊎ ((n : ℕ) × (m ≡ moved n)) ⊎ (m ≡ give_up)
Move-cases again = inl refl
Move-cases (moved n) = inr (inl (n, refl))
Move-cases give_up = inr (inr refl)

module _ {W : Type 0} (s : System W) (posix : IsPosix s) (must_seek : Bool)
    (tagfile extfile size : ℕ) (apart : tagfile ≢ extfile) where
  -- What a turn has done by the time that it leaves the machine in `w'`: the tag file is as it was, and so
  -- many of the bytes `src` follow what had been written.
  pub record HasMoved (w w' : W) (src : List ℕ) (limit : ℕ) (move : Move) : Type 0 where
    pub same_input : posix.input w' tagfile ≡ posix.input w tagfile
    pub appended : posix.output w' extfile ≡ posix.output w extfile ++ take (moved_by move) src
    pub bounded : moved_by move ≤ limit

  pub write_turn-HasMoved :
      (w : W) (bytes src : List ℕ) (limit : ℕ)
      → length bytes ≤ limit
      → bytes ≡ take (length bytes) src
      → let r = write_turn s must_seek tagfile extfile size w bytes in HasMoved w r.0 src limit r.1
  unfolding write_turn of_write
  write_turn-HasMoved w [] src limit l e = record {
    same_input = refl;
    appended = sym (append_nil (posix.output w extfile));
    bounded = omega arith;
  }
  write_turn-HasMoved w (b ∷ bs) src limit l e =
      elim (WriteResult-cases (s.write w extfile (b ∷ bs)).1) [
        | inl (n, r) ↦
            let (le, out) = posix.write-wrote w extfile n (b ∷ bs) r in
            let same : take n (b ∷ bs) ≡ take n src =
              ap (take n) e ∙ take-take n (length (b ∷ bs)) src le in
            rw r (record {
              same_input = posix.input-write w extfile (b ∷ bs) tagfile apart;
              appended = rw (of_write_lem n) (out ∙ ap (λ l. posix.output w extfile ++ l) same);
              bounded = rw (of_write_lem n) (omega arith);
            })
        | inr (e', r) ↦
            rw (r, of_write)
              (record {
                same_input = posix.input-write w extfile (b ∷ bs) tagfile apart;
                appended = rw (of_errno_lem e') (
                    posix.write-failed w extfile e' (b ∷ bs) r
                    ∙ sym (append_nil (posix.output w extfile)));
                bounded = rw (of_errno_lem e') (omega arith);
              })
      ]

  -- The bytes at a turn's place of the tag file.
  abbrev pub source : W → Cursor → List ℕ
  source w c = drop c.cur_tag_offset (posix.input w tagfile)

  min_le : (a b : ℕ) → min a b ≤ a
  min_le a b = ground arith

  -- A seek that a turn goes on after has gone where it was told.
  abbrev pub Seeks : Type 0
  Seeks = (w : W) (o : ℕ) → (s.lseek w tagfile o).1 ≡ some o

  pub read_turn-HasMoved :
      (w : W) (c : Cursor)
      → posix.position w tagfile ≡ c.cur_tag_offset
      → let r = read_turn s must_seek tagfile extfile size w c in
        HasMoved w r.0 (source w c) (sub_word size c.written) r.1
  unfolding read_turn
  read_turn-HasMoved w c at =
      let asked = min (sub_word size c.written) transfer_size in
      let w1 = (s.read w tagfile asked).0 in
      elim (ReadResult-cases (s.read w tagfile asked).1) [
        | inl (bytes, r) ↦
            let (le, same) = posix.read-got w tagfile asked bytes r in
            let here : bytes ≡ take (length bytes) (source w c) =
              subst (λ o. bytes ≡ take (length bytes) (drop o (posix.input w tagfile))) at same in
            let few : length bytes ≤ sub_word size c.written =
              omega (arith, min_le (sub_word size c.written) transfer_size) in
            let h = write_turn-HasMoved w1 bytes (source w c) (sub_word size c.written) few here in
            rw (r, read_turn)
              (record {
                same_input = h.same_input ∙ posix.input-read w tagfile asked tagfile;
                appended =
                    h.appended
                    ∙ ap
                        (λ l.
                          l
                          ++ take
                              (moved_by (write_turn s must_seek tagfile extfile size w1 bytes).1)
                              (source w c))
                        (posix.output-read w tagfile asked extfile);
                bounded = h.bounded;
              })
        | inr (e, r) ↦
            rw (r, read_turn)
              (record {
                same_input = posix.input-read w tagfile asked tagfile;
                appended = rw (of_errno_lem e) (
                    posix.output-read w tagfile asked extfile
                    ∙ sym (append_nil (posix.output w extfile)));
                bounded = rw (of_errno_lem e) (omega arith);
              })
      ]

  pub turn_seeks :
      (w : W) (c : Cursor)
      → (must_seek ≡ true) ⊎ Seeks
      → c.cur_tag_offset < 2 ^ 64 - 1
      → let w1 = (s.lseek w tagfile c.cur_tag_offset).0 in
        (turn s must_seek tagfile extfile size w c ≡ (w1, give_up))
        ⊎ ((turn s must_seek tagfile extfile size w c
              ≡ read_turn s must_seek tagfile extfile size w1 c)
            × (posix.position w1 tagfile ≡ c.cur_tag_offset))
  unfolding turn
  turn_seeks w c (inr seeks) small =
      let e = seeks w c.cur_tag_offset in
      let pass : (must_seek && not (offset_word (some c.cur_tag_offset) == c.cur_tag_offset))
          ≡ false =
        ground arith in
      inr (
        rw (e, pass, turn) refl,
        posix.position-lseek w tagfile c.cur_tag_offset c.cur_tag_offset e,
      )
  turn_seeks w c (inl must) small =
      let r = (s.lseek w tagfile c.cur_tag_offset).1 in
      elim (Bool-cases (offset_word r == c.cur_tag_offset)) [
        | inr astray ↦ inl (rw (must, astray, turn) refl)
        | inl there ↦ inr (
          rw (must, there, turn) refl,
          posix.position-lseek w tagfile c.cur_tag_offset c.cur_tag_offset
              (offset_word-some r c.cur_tag_offset there small),
        )
      ]

  pub turn-HasMoved :
      (w : W) (c : Cursor)
      → (must_seek ≡ true) ⊎ Seeks
      → c.cur_tag_offset < 2 ^ 64 - 1
      → let r = turn s must_seek tagfile extfile size w c in
        HasMoved w r.0 (source w c) (sub_word size c.written) r.1
  turn-HasMoved w c seeks small =
      let w1 = (s.lseek w tagfile c.cur_tag_offset).0 in
      let same_in = posix.input-lseek w tagfile c.cur_tag_offset tagfile in
      let same_out = posix.output-lseek w tagfile c.cur_tag_offset extfile in
      elim (turn_seeks w c seeks small) [
        | inl e ↦ rw e (record {
          same_input = same_in;
          appended = same_out ∙ sym (append_nil (posix.output w extfile));
          bounded = omega arith;
        })
        | inr (e, at) ↦
            let h = read_turn-HasMoved w1 c at in
            rw e (record {
              same_input = h.same_input ∙ same_in;
              appended = rw (sym same_in, sym same_out) h.appended;
              bounded = h.bounded;
            })
      ]

  -- The transfer of `src`, from `offset` on, to a file to which `before` had been written.
  pub record IsPiece (src before : List ℕ) (offset : ℕ) (w : W) (c : Cursor) : Type 0 where
    pub input_is : posix.input w tagfile ≡ src
    pub output_is : posix.output w extfile ≡ before ++ take c.written (drop offset src)
    pub place : c.cur_tag_offset ≡ offset + c.written
    pub within : c.written ≤ size

  pub next-IsPiece :
      (src before : List ℕ) (offset : ℕ) (w w' : W) (c : Cursor) (move : Move) (n : ℕ)
      → offset + size < 2 ^ 64
      → IsPiece src before offset w c
      → HasMoved w w' (source w c) (sub_word size c.written) move
      → n ≡ moved_by move
      → IsPiece src before offset w' (advance n c)
  unfolding advance
  next-IsPiece src before offset w w' c move n fits p h e =
      let bound : n ≤ sub_word size c.written = rw e h.bounded in
      let w_in = p.within in
      let few : c.written + n ≤ size = omega arith in
      let sum : word (c.written + n) ≡ c.written + n = omega arith in
      let rest : source w c ≡ drop c.written (drop offset src) =
        rw (p.input_is, p.place) (sym (drop-drop c.written offset src)) in
      record {
        input_is = h.same_input ∙ p.input_is;
        output_is =
            rw (sum, take-add c.written n (drop offset src), h.appended, p.output_is, sym e, rest)
              (append_assoc before (take c.written (drop offset src))
                (take n (drop c.written (drop offset src))));
        place = let at = p.place in rw sum (omega arith);
        within = rw sum few;
      }

  pub same-IsPiece :
      (src before : List ℕ) (offset : ℕ) (w w' : W) (c : Cursor) (move : Move)
      → IsPiece src before offset w c
      → HasMoved w w' (source w c) (sub_word size c.written) move
      → moved_by move ≡ 0
      → IsPiece src before offset w' c
  same-IsPiece src before offset w w' c move p h e = record {
    input_is = h.same_input ∙ p.input_is;
    output_is = h.appended ∙ rw e (append_nil (posix.output w extfile) ∙ p.output_is);
    place = p.place;
    within = p.within;
  }

  pub poll-IsPiece :
      (src before : List ℕ) (offset : ℕ) (w : W) (c : Cursor)
      → IsPiece src before offset w c
      → IsPiece src before offset (s.poll w).0 c
  poll-IsPiece src before offset w c p = record {
    input_is = posix.input-poll w tagfile ∙ p.input_is;
    output_is = posix.output-poll w extfile ∙ p.output_is;
    place = p.place;
    within = p.within;
  }

  -- However the loop ends, it has written a piece of the tag file.
  pub transfer-IsPiece :
      (fuel : ℕ) (src before : List ℕ) (offset : ℕ) (w : W) (c : Cursor)
      → (must_seek ≡ true) ⊎ Seeks
      → offset + size < 2 ^ 64
      → IsPiece src before offset w c
      → let r = transfer s must_seek tagfile extfile size fuel w c in
        IsPiece src before offset r.0 (cursor_of r.1)
  unfolding transfer
  transfer-IsPiece zero src before offset w c seeks fits p = p
  transfer-IsPiece (suc fuel) src before offset w c seeks fits p =
      let w0 = (s.poll w).0 in
      let p0 = poll-IsPiece src before offset w c p in
      let r = turn s must_seek tagfile extfile size w0 c in
      elim (Bool-cases (s.poll w).1) [
        | inl stop ↦ rw (stop, transfer) p0
        | inr goes ↦ elim (Bool-cases (ltb c.written size)) [
          | inr full ↦ rw (goes, full, transfer) p0
          | inl less ↦
              let at = p.place in
              let small : c.cur_tag_offset < 2 ^ 64 - 1 =
                omega (arith, ltb→lt c.written size less) in
              let h = turn-HasMoved w0 c seeks small in
              elim (Move-cases r.1) [
                | inl e ↦
                    rw (goes, less, e, transfer)
                      (transfer-IsPiece fuel src before offset r.0 c seeks fits
                        (same-IsPiece src before offset w0 r.0 c r.1 p0 h (ap moved_by e)))
                | inr (inl (n, e)) ↦
                    rw (goes, less, e, transfer)
                      (transfer-IsPiece fuel src before offset r.0 (advance n c) seeks fits (
                        next-IsPiece src before offset w0 r.0 c r.1 n fits p0 h
                          (sym (ap moved_by e))))
                | inr (inr e) ↦
                    rw (goes, less, e, transfer)
                      (same-IsPiece src before offset w0 r.0 c r.1 p0 h (ap moved_by e))
              ]
        ]
      ]
