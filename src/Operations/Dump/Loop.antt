-- ===== src/Operations/Dump/Loop.antt =====
-- The outer loop of a dump that nothing disturbs.
use data_recorder.Base.{
  ℕ, suc, ◌+◌, ◌-◌, ◌≤◌, ◌≡◌, ◌≢◌, refl, sym, ap, ◌∙◌, true, some, List, [], ◌∷◌, ◌++◌, map, arith,
  All, length, take, drop, subst,
}
use data_recorder.Operations.Files.{System, IsPosix, Files, clean_up}
use data_recorder.Operations.Files.Release.{clean_up-put_back, clean_up-closed, clean_up-others}
use data_recorder.Operations.Transfer.{Cursor}
use data_recorder.Operations.Transfer.Slices.{append_assoc, take-take, drop-drop}
use data_recorder.Operations.Transfer.Ends.{IsPatient}
use data_recorder.Operations.Transfer.Calm.{IsCalm}
use data_recorder.Operations.Transfer.Keeps.{transfer-others}
use data_recorder.Operations.Dump.{
  size_for_this_chunk, DumpOperation, finish, cleanup_outer, clean_up_all, stopped_at, next_chunk,
  dump_files,
}
use data_recorder.Operations.Dump.Steps.{begun, chunk, dump_files_left, dump_files-still_closed}
use data_recorder.Operations.Dump.Chunks.{parts, share, IsPlan, share_le, next-IsPlan, drop-take}
use data_recorder.Operations.Dump.Ready.{
  Received-congr, All-map, dump_files-others, Planned, IsReady, IsDumped, chunk_lem,
}

-- The operation for the next file.
abbrev next_op : ℕ → List ℕ → Cursor → DumpOperation → Files → DumpOperation
next_op f files c op fs = (next_chunk (stopped_at c (begun f (map some files) op)) fs).0

abbrev next_files : ℕ → List ℕ → Cursor → DumpOperation → Files → Files
next_files f files c op fs = (next_chunk (stopped_at c (begun f (map some files) op)) fs).1

next-Planned :
    (num_files f : ℕ) (files : List ℕ) (c : Cursor) (op : DumpOperation) (fs : Files)
    (remaining : ℕ)
    → IsPlan num_files files op remaining
    → Planned num_files files
        (next_op f files c op fs)
        (remaining - share op.chunk_size remaining files)
unfolding next_chunk stopped_at
next-Planned num_files f [] c op fs remaining p = tt
next-Planned num_files f (g ∷ files) c op fs remaining p =
    next-IsPlan num_files g files op (next_op f (g ∷ files) c op fs) remaining p refl refl refl

next_files-opened :
    (f : ℕ) (files all : List ℕ) (c : Cursor) (op : DumpOperation) (fs : Files)
    → All (λ g. f ≢ g) all
    → All (λ g. fs.is_open g ≡ true) all
    → All (λ g. (next_files f files c op fs).is_open g ≡ true) all
unfolding next_chunk stopped_at
next_files-opened f files [] c op fs d h = h
next_files-opened f files (g ∷ all) c op fs d h = (
  clean_up-others op.s2 f g fs (λ e. d.0 (sym e)) ∙ h.0,
  next_files-opened f files all c op fs d.1 h.1,
)

parts_step :
    (k remaining : ℕ) (files : List ℕ) (offset : ℕ) (src : List ℕ)
    → share k remaining files ≤ remaining
    → parts k (suc (length files)) (take remaining (drop offset src))
      ≡ take (share k remaining files) (drop offset src)
        ∷ parts k (length files) (
            take
              (remaining - share k remaining files)
              (drop (offset + share k remaining files) src))
parts_step k remaining [] offset src h = refl
parts_step k remaining (g ∷ files) offset src h =
    rw
      (
        take-take k remaining (drop offset src) h,
        drop-take k remaining (drop offset src) h,
        drop-drop k offset src,
      )
      refl

module _ {W : Type 0} (s : System W) (posix : IsPosix s) (patient : IsPatient s posix)
    (calm : IsCalm s) (seeks : (w : W) (tagfile o : ℕ) → (s.lseek w tagfile o).1 ≡ some o)
    (fuel num_files tagfile a b : ℕ) (src : List ℕ) where
  next-IsReady :
      (f : ℕ) (files : List ℕ) (op : DumpOperation) (w w' : W) (fs : Files) (remaining : ℕ)
      (c : Cursor)
      → IsReady s posix patient fuel num_files tagfile a b src (f ∷ files) op w fs remaining
      → c.cur_tag_offset ≡ op.cursor.cur_tag_offset + share op.chunk_size remaining files
      → posix.input w' tagfile ≡ src
      → patient.patience w' ≤ patient.patience w
      → IsReady s posix patient fuel num_files tagfile a b src files
          (next_op f files c op fs)
          w'
          (next_files f files c op fs)
          (remaining - share op.chunk_size remaining files)
  unfolding next_chunk stopped_at
  next-IsReady f files op w w' fs remaining c h e input calmer =
      let few = share_le num_files files op remaining h.planned in
      let room = h.inside in
      let fuel_left = h.enough in
      record {
        planned = next-Planned num_files f files c op fs remaining h.planned;
        apart = h.apart.1;
        distinct = h.distinct.1;
        opened = next_files-opened f files files c op fs h.distinct.0 h.opened.1;
        no_extfile = refl;
        storage1 = h.storage1;
        storage2 = h.storage2;
        tag = h.tag;
        same_input = input;
        addressable = h.addressable;
        inside = omega arith;
        enough = omega arith;
      }

  last-IsDumped :
      (op : DumpOperation) (w : W) (fs : Files) (remaining : ℕ)
      → IsReady s posix patient fuel num_files tagfile a b src [] op w fs remaining
      → IsDumped s posix tagfile [] [] w fs (dump_files s fuel num_files tagfile [] op w fs)
  unfolding dump_files finish cleanup_outer clean_up_all clean_up
  last-IsDumped op w fs remaining h =
      rw (h.no_extfile, h.storage1, h.tag)
        (record {
          returned = refl;
          received = tt;
          all_put_back = clean_up-put_back a (some tagfile) fs;
          tagfile_closed = clean_up-closed (some a) tagfile fs;
          files_closed = tt;
        })

  pub dump_files-IsDumped :
      (files : List ℕ) (op : DumpOperation) (w : W) (fs : Files) (remaining : ℕ)
      → IsReady s posix patient fuel num_files tagfile a b src files op w fs remaining
      → IsDumped s posix tagfile files
          (parts op.chunk_size (length files) (take remaining (drop op.cursor.cur_tag_offset src)))
          w
          fs
          (dump_files s fuel num_files tagfile (map some files) op w fs)
  unfolding next_chunk stopped_at
  dump_files-IsDumped [] op w fs remaining h = last-IsDumped op w fs remaining h
  dump_files-IsDumped (f ∷ files) op w fs remaining h =
      let k = share op.chunk_size remaining files in
      let (c, is_left, all, place, input, out, calmer) =
        chunk_lem s posix patient calm seeks fuel num_files tagfile a b src f files op w fs
          remaining h in
      let w1 = (chunk s fuel num_files tagfile f op w).0 in
      let op1 = next_op f files c op fs in
      let fs1 = next_files f files c op fs in
      let ready = next-IsReady f files op w w1 fs remaining c h place input calmer in
      let rest = dump_files-IsDumped files op1 w1 fs1 (remaining - k) ready in
      let few = share_le num_files files op remaining h.planned in
      let closed = clean_up-closed op.s2 f fs in
      let elsewhere =
        dump_files-others s posix fuel num_files tagfile files op1 w1 fs1 f h.distinct.0 in
      let same =
        All-map files
          (λ (g : ℕ) (d : f ≢ g).
            transfer-others s posix true tagfile f (size_for_this_chunk num_files op) fuel
              (s.poll w).0 (record { cur_tag_offset = op.cursor.cur_tag_offset; written = 0 }) g
              (λ e. d (sym e))
            ∙ posix.output-poll w g)
          h.distinct.0 in
      rw
        (
          dump_files_left s fuel num_files tagfile f (map some files) op w fs c
              (calm.not_interrupted w) h.opened.0 is_left,
          parts_step op.chunk_size remaining files op.cursor.cur_tag_offset src few,
          sym place,
        )
        (record {
          returned = rest.returned;
          received = (
            elsewhere ∙ out,
            Received-congr (posix.output w1) (posix.output w)
                (posix.output
                  (dump_files s fuel num_files tagfile (map some files) op1 w1 fs1).world)
                files
                (parts op.chunk_size (length files)
                  (take (remaining - k) (drop c.cur_tag_offset src)))
                same rest.received,
          );
          all_put_back =
              rest.all_put_back
              ∙ ap (λ l. l ++ (files ++ tagfile ∷ []))
                  (subst (λ x. (clean_up x (some f) fs).put_back ≡ fs.put_back ++ f ∷ [])
                    (sym h.storage2) (clean_up-put_back b (some f) fs))
              ∙ append_assoc fs.put_back (f ∷ []) (files ++ tagfile ∷ []);
          tagfile_closed = rest.tagfile_closed;
          files_closed = (
            dump_files-still_closed s fuel num_files tagfile (map some files) op1 w1 fs1 f closed,
            rest.files_closed,
          );
        })
