-- ===== src/Operations/Dump/Steps.antt =====
-- One turn of a dump's outer loop, and what all turns keep.
use data_recorder.Base.{
  ℕ, ◌≡◌, refl, ◌⊎◌, inl, inr, true, false, Option, none, some, List, [], ◌∷◌, Bool-cases,
}
use data_recorder.Operations.Files.{System, Files, clean_up}
use data_recorder.Operations.Files.Release.{clean_up-still_closed}
use data_recorder.Operations.Transfer.{Cursor, Ending, transfer, left, broken, spinning}
use data_recorder.Operations.Dump.{
  DumpOperation, clean_up_all, cleanup_outer, cleanup_inner_error, size_for_this_chunk, finish,
  fail, stopped_at, next_chunk, dump_files,
}

pub Ending-cases :
    (e : Ending)
    → ((c : Cursor) × (e ≡ left c))
      ⊎ ((c : Cursor) × (e ≡ broken c))
      ⊎ ((c : Cursor) × (e ≡ spinning c))
Ending-cases (left c) = inl (c, refl)
Ending-cases (broken c) = inr (inl (c, refl))
Ending-cases (spinning c) = inr (inr (c, refl))

clean_up_all-still_closed :
    (s : Option ℕ) (files : List (Option ℕ)) (f : ℕ) (fs : Files)
    → fs.is_open f ≡ false
    → (clean_up_all s files fs).is_open f ≡ false
unfolding clean_up_all
clean_up_all-still_closed s [] f fs h = h
clean_up_all-still_closed s (file ∷ files) f fs h =
    clean_up_all-still_closed s files f (clean_up s file fs) (clean_up-still_closed s file f fs h)

finish-still_closed :
    {W : Type 0} (op : DumpOperation) (w : W) (f : ℕ) (fs : Files)
    → fs.is_open f ≡ false
    → (finish op w fs).files.is_open f ≡ false
unfolding finish cleanup_outer
finish-still_closed op w f fs h =
    clean_up-still_closed op.s1 op.tagfile f
      (clean_up_all op.s2 op.extfiles (clean_up op.s2 op.extfile fs))
      (clean_up_all-still_closed op.s2 op.extfiles f (clean_up op.s2 op.extfile fs)
        (clean_up-still_closed op.s2 op.extfile f fs h))

fail-still_closed :
    {W : Type 0} (op : DumpOperation) (w : W) (f : ℕ) (fs : Files)
    → fs.is_open f ≡ false
    → (fail op w fs).files.is_open f ≡ false
unfolding fail cleanup_inner_error
fail-still_closed op w f fs h =
    finish-still_closed (record op { extfile = none; extfiles = [] }) w f
      (clean_up_all op.s2 op.extfiles (clean_up op.s2 op.extfile fs))
      (clean_up_all-still_closed op.s2 op.extfiles f (clean_up op.s2 op.extfile fs)
        (clean_up-still_closed op.s2 op.extfile f fs h))

-- The operation when the loop for a file begins.
abbrev pub begun : ℕ → List (Option ℕ) → DumpOperation → DumpOperation
begun extfile files op = record op {
  extfiles = files;
  extfile = some extfile;
  cursor = record { cur_tag_offset = op.cursor.cur_tag_offset; written = 0 };
}

module _ {W : Type 0} (s : System W) (fuel num_files tagfile : ℕ) where
  -- What the loop for a file comes to.
  abbrev pub chunk : ℕ → DumpOperation → W → W × Ending
  chunk extfile op w =
      transfer s true tagfile extfile (size_for_this_chunk num_files op) fuel (s.poll w).0
        (record { cur_tag_offset = op.cursor.cur_tag_offset; written = 0 })

  -- A turn whose chunk is left by its condition.
  pub dump_files_left :
      (extfile : ℕ) (files : List (Option ℕ)) (op : DumpOperation) (w : W) (fs : Files) (c : Cursor)
      → (s.poll w).1 ≡ false
      → fs.is_open extfile ≡ true
      → (chunk extfile op w).1 ≡ left c
      → let next = next_chunk (stopped_at c (begun extfile files op)) fs in
        dump_files s fuel num_files tagfile (some extfile ∷ files) op w fs
        ≡ dump_files s fuel num_files tagfile files next.0 (chunk extfile op w).0 next.1
  unfolding dump_files
  dump_files_left extfile files op w fs c goes is_open e = rw (goes, is_open, e, dump_files) refl

  pub dump_files-still_closed :
      (files : List (Option ℕ)) (op : DumpOperation) (w : W) (fs : Files) (f : ℕ)
      → fs.is_open f ≡ false
      → (dump_files s fuel num_files tagfile files op w fs).files.is_open f ≡ false
  unfolding dump_files next_chunk
  dump_files-still_closed [] op w fs f h =
      finish-still_closed (record op { extfiles = [] }) (s.poll w).0 f fs h
  dump_files-still_closed (none ∷ files) op w fs f h = elim (Bool-cases (s.poll w).1) [
    | inl stop ↦
        rw (stop, dump_files)
          (finish-still_closed (record op { extfiles = none ∷ files }) (s.poll w).0 f fs h)
    | inr goes ↦
        rw (goes, dump_files)
          (fail-still_closed (record op { extfiles = files }) (s.poll w).0 f fs h)
  ]
  dump_files-still_closed (some extfile ∷ files) op w fs f h = elim (Bool-cases (s.poll w).1) [
    | inl stop ↦
        rw (stop, dump_files)
          (finish-still_closed (record op { extfiles = some extfile ∷ files }) (s.poll w).0 f fs h)
    | inr goes ↦ elim (Bool-cases (fs.is_open extfile)) [
      | inr shut ↦
          rw (goes, shut, dump_files)
            (fail-still_closed (begun extfile files op) (s.poll w).0 f fs h)
      | inl is_open ↦ elim (Ending-cases (chunk extfile op w).1) [
        | inl (c, e) ↦
            rw (goes, is_open, e, dump_files)
              (dump_files-still_closed files
                (next_chunk (stopped_at c (begun extfile files op)) fs).0 (chunk extfile op w).0
                (next_chunk (stopped_at c (begun extfile files op)) fs).1 f
                (clean_up-still_closed (stopped_at c (begun extfile files op)).s2
                  (stopped_at c (begun extfile files op)).extfile f fs h))
        | inr (inl (c, e)) ↦
            rw (goes, is_open, e, dump_files)
              (fail-still_closed (stopped_at c (begun extfile files op)) (chunk extfile op w).0 f fs
                h)
        | inr (inr (c, e)) ↦ rw (goes, is_open, e, dump_files) h
      ]
    ]
  ]
