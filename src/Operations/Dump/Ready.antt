-- ===== src/Operations/Dump/Ready.antt =====
-- A dump that is under way: what the loop of one chunk does, and what the other files receive.
use data_recorder.Base.{
  ℕ, ◌+◌, ◌≤◌, ◌<◌, ◌^◌, ◌≡◌, ◌≢◌, sym, ap, ◌∙◌, inl, inr, true, false, none, some, List, [], ◌∷◌,
  ◌++◌, map, arith, All, length, take, drop, Bool-cases,
}
use data_recorder.Operations.Files.{System, IsPosix, Files}
use data_recorder.Operations.Transfer.{Cursor, left}
use data_recorder.Operations.Transfer.Slices.{append_nil}
use data_recorder.Operations.Transfer.Content.{IsPiece}
use data_recorder.Operations.Transfer.Ends.{IsPatient}
use data_recorder.Operations.Transfer.Calm.{IsCalm, transfer_full}
use data_recorder.Operations.Transfer.Keeps.{transfer-others, transfer-patience}
use data_recorder.Operations.Dump.{
  DumpOperation, DumpRun, size_for_this_chunk, finish, fail, stopped_at, next_chunk, dump_files,
}
use data_recorder.Operations.Dump.Steps.{Ending-cases, begun, chunk}
use data_recorder.Operations.Dump.Chunks.{share, IsPlan, size_for_this_chunk_lem, share_le}

-- Every file of a list has received its part, behind what had been written to it.
abbrev pub Received : (ℕ → List ℕ) → (ℕ → List ℕ) → List ℕ → List (List ℕ) → Type 0
Received before after [] [] = Unit
Received before after [] (part ∷ rest) = ⊥
Received before after (file ∷ files) [] = ⊥
Received before after (file ∷ files) (part ∷ rest) =
    (after file ≡ before file ++ part) × Received before after files rest

-- No file stands twice in the list.
abbrev pub AreDistinct : List ℕ → Type 0
AreDistinct [] = Unit
AreDistinct (file ∷ files) = All (λ g. file ≢ g) files × AreDistinct files

pub Received-congr :
    (before before' after : ℕ → List ℕ) (files : List ℕ) (rest : List (List ℕ))
    → All (λ g. before g ≡ before' g) files
    → Received before after files rest
    → Received before' after files rest
Received-congr before before' after [] [] e h = h
Received-congr before before' after [] (part ∷ rest) e h = h
Received-congr before before' after (f ∷ files) [] e h = h
Received-congr before before' after (f ∷ files) (part ∷ rest) e h =
    (h.0 ∙ ap (λ l. l ++ part) e.0, Received-congr before before' after files rest e.1 h.1)

pub All-map : {P Q : ℕ → Type 0} (l : List ℕ) → ((n : ℕ) → P n → Q n) → All P l → All Q l
All-map [] f h = h
All-map (n ∷ l) f h = (f n h.0, All-map l f h.1)

module _ {W : Type 0} (s : System W) (posix : IsPosix s) (fuel num_files tagfile : ℕ) where
  -- What had been written to a file that is none of the dump's.
  pub dump_files-others :
      (files : List ℕ) (op : DumpOperation) (w : W) (fs : Files) (f : ℕ)
      → All (λ g. f ≢ g) files
      → posix.output (dump_files s fuel num_files tagfile (map some files) op w fs).world f
        ≡ posix.output w f
  unfolding dump_files finish fail
  dump_files-others [] op w fs f h = posix.output-poll w f
  dump_files-others (extfile ∷ files) op w fs f h =
      let polled = posix.output-poll w f in
      let moved =
        transfer-others s posix true tagfile extfile (size_for_this_chunk num_files op) fuel
          (s.poll w).0 (record { cur_tag_offset = op.cursor.cur_tag_offset; written = 0 }) f h.0
        ∙ polled in
      elim (Bool-cases (s.poll w).1) [
        | inl stop ↦ rw (stop, dump_files) polled
        | inr goes ↦ elim (Bool-cases (fs.is_open extfile)) [
          | inr shut ↦ rw (goes, shut, dump_files) polled
          | inl is_open ↦ elim (Ending-cases (chunk s fuel num_files tagfile extfile op w).1) [
            | inl (c, e) ↦
                let next = next_chunk (stopped_at c (begun extfile (map some files) op)) fs in
                rw (goes, is_open, e, dump_files)
                  (dump_files-others files next.0 (chunk s fuel num_files tagfile extfile op w).0
                      next.1 f h.1
                    ∙ moved)
            | inr (inl (c, e)) ↦ rw (goes, is_open, e, dump_files) moved
            | inr (inr (c, e)) ↦ rw (goes, is_open, e, dump_files) moved
          ]
        ]
      ]

abbrev pub Planned : ℕ → List ℕ → DumpOperation → ℕ → Type 0
Planned num_files [] op remaining = Unit
Planned num_files (file ∷ files) op remaining = IsPlan num_files files op remaining

-- A dump that begins, or goes on with the files that are left.
pub record IsReady {W : Type 0} (s : System W) (posix : IsPosix s) (patient : IsPatient s posix)
    (fuel num_files tagfile a b : ℕ) (src : List ℕ) (files : List ℕ) (op : DumpOperation) (w : W)
    (fs : Files) (remaining : ℕ) : Type 0 where
  pub planned : Planned num_files files op remaining
  pub apart : All (λ g. tagfile ≢ g) files
  pub distinct : AreDistinct files
  pub opened : All (λ g. fs.is_open g ≡ true) files
  pub no_extfile : op.extfile ≡ none
  pub storage1 : op.s1 ≡ some a
  pub storage2 : op.s2 ≡ some b
  pub tag : op.tagfile ≡ some tagfile
  pub same_input : posix.input w tagfile ≡ src
  pub addressable : length src < 2 ^ 64
  pub inside : op.cursor.cur_tag_offset + remaining ≤ length src
  pub enough : patient.patience w + remaining < fuel

pub record IsDumped {W : Type 0} (s : System W) (posix : IsPosix s) (tagfile : ℕ) (files : List ℕ)
    (pieces : List (List ℕ)) (w : W) (fs : Files) (r : DumpRun W) : Type 0 where
  pub returned : r.returned ≡ true
  pub received : Received (posix.output w) (posix.output r.world) files pieces
  pub all_put_back : r.files.put_back ≡ fs.put_back ++ (files ++ tagfile ∷ [])
  pub tagfile_closed : r.files.is_open tagfile ≡ false
  pub files_closed : All (λ g. r.files.is_open g ≡ false) files

module _ {W : Type 0} (s : System W) (posix : IsPosix s) (patient : IsPatient s posix)
    (calm : IsCalm s) (seeks : (w : W) (tagfile o : ℕ) → (s.lseek w tagfile o).1 ≡ some o)
    (fuel num_files tagfile a b : ℕ) (src : List ℕ) where
  pub chunk_lem :
      (f : ℕ) (files : List ℕ) (op : DumpOperation) (w : W) (fs : Files) (remaining : ℕ)
      → IsReady s posix patient fuel num_files tagfile a b src (f ∷ files) op w fs remaining
      → let r = chunk s fuel num_files tagfile f op w in
        let k = share op.chunk_size remaining files in
        (c : Cursor) × (r.1 ≡ left c)
        × (c.written ≡ k)
        × (c.cur_tag_offset ≡ op.cursor.cur_tag_offset + k)
        × (posix.input r.0 tagfile ≡ src)
        × (posix.output r.0 f ≡ posix.output w f ++ take k (drop op.cursor.cur_tag_offset src))
        × (patient.patience r.0 ≤ patient.patience w)
  chunk_lem f files op w fs remaining h =
      let k = share op.chunk_size remaining files in
      let offset = op.cursor.cur_tag_offset in
      let w0 = (s.poll w).0 in
      let start : Cursor = record { cur_tag_offset = offset; written = 0 } in
      let few = share_le num_files files op remaining h.planned in
      let room = h.inside in
      let small = h.addressable in
      let calm0 = patient.patience-poll w in
      let fuel_left = h.enough in
      let before = posix.output w f in
      let piece : IsPiece s posix true tagfile f k h.apart.0 src before offset w0 start = record {
        input_is = posix.input-poll w tagfile ∙ h.same_input;
        output_is = posix.output-poll w f ∙ sym (append_nil before);
        place = omega arith;
        within = omega arith;
      } in
      let (c, is_left, all, end, out) =
        transfer_full s posix calm true tagfile f k h.apart.0 patient fuel src before offset w0
          start (λ v o. seeks v tagfile o) (omega arith) (omega arith) piece (omega arith) in
      let calmer = transfer-patience s posix true tagfile f k patient fuel w0 start in
      rw (size_for_this_chunk_lem num_files files op remaining h.planned)
        (c, is_left, all, end.place ∙ ap (λ n. offset + n) all, end.input_is, out, omega arith)
