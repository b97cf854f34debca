-- ===== src/Operations/Requests/Plans.antt =====
-- The plan of a dump that DMP schedules: it is within the tag file, and its chunks cover it.
use native.Mathlib.Nat.{lt-div-mul-add, div-mul-le_self, div-le_self}
use data_recorder.Base.{
  ℕ, zero, suc, ◌+◌, ◌*◌, ◌/◌, ◌≤◌, ◌<◌, ◌^◌, ◌≡◌, ◌≢◌, refl, sym, ap, subst, ◌∙◌, inl, inr, true,
  false, Option, none, some, List, [], ◌∷◌, ◌++◌, ◌==◌, arith, Bool-cases, returns, word, length,
  length-append,
}
use data_recorder.Operations.Dump.{DumpOperation, dump_operation}
use data_recorder.Operations.Requests.{
  Answer, Ledger, put_file, open_in, open_out, num_chunks, this_chunk_size, put_files, open_chunks,
  DumpRequest, schedule_dump, dmp,
}

-- The number of chunks: the last one is not empty, and the others are not all.
pub num_chunks_lem :
    (size chunk_size : ℕ)
    → 0 < chunk_size
    → size < 2 ^ 63
    → let n = num_chunks size chunk_size in
      (size ≤ n * chunk_size) × (n * chunk_size < size + chunk_size) × (n ≤ suc size)
unfolding num_chunks
num_chunks_lem size chunk_size pos small =
    let m = size / chunk_size in
    let above = lt-div-mul-add {a = size} {b = chunk_size} pos in
    let below = div-mul-le_self size chunk_size in
    let few = div-le_self size chunk_size in
    let product : word (m * chunk_size) ≡ m * chunk_size = omega arith in
    elim (Bool-cases (word (m * chunk_size) == size)) [
      | inl exact ↦
          let e : m * chunk_size ≡ size = ground arith in
          rw (exact, num_chunks) (omega arith, omega arith, omega arith)
      | inr inexact ↦
          let d : m * chunk_size ≢ size = λ q. ground arith in
          let more : word (m + 1) ≡ suc m = omega arith in
          let next : suc m * chunk_size ≡ chunk_size + m * chunk_size = omega arith in
          rw (inexact, num_chunks, more) (omega arith, omega arith, omega arith)
    ]

open_chunks_next :
    (ext : ℕ → ℕ → Answer) (sizes : ℕ → ℕ) (tagfile : Option ℕ) (n cur : ℕ)
    (files : List (Option ℕ)) (l : Ledger)
    → let o = open_out (ext cur (sizes cur)) l in
      o.accept ≡ true
      → open_chunks ext sizes tagfile (suc n) cur files l
        ≡ open_chunks ext sizes tagfile n (cur + 1) (files ++ o.file ∷ []) o.ledger
unfolding open_chunks
open_chunks_next ext sizes tagfile n cur files l e = rw (e, open_chunks) refl

pub open_chunks_stop :
    (ext : ℕ → ℕ → Answer) (sizes : ℕ → ℕ) (tagfile : Option ℕ) (n cur : ℕ)
    (files : List (Option ℕ)) (l : Ledger)
    → let o = open_out (ext cur (sizes cur)) l in
      o.accept ≡ false
      → open_chunks ext sizes tagfile (suc n) cur files l
        ≡ (put_files files (put_file o.file (put_file tagfile o.ledger)), none)
unfolding open_chunks
open_chunks_stop ext sizes tagfile n cur files l e = rw (e, open_chunks) refl

none-some : {A : Type 0} (x : A) → none ≢ some x
none-some x e = cc

open_chunks-length :
    (ext : ℕ → ℕ → Answer) (sizes : ℕ → ℕ) (tagfile : Option ℕ) (n cur : ℕ)
    (files files' : List (Option ℕ)) (l : Ledger)
    → (open_chunks ext sizes tagfile n cur files l).1 ≡ some files'
    → length files' ≡ length files + n
unfolding open_chunks
open_chunks-length ext sizes tagfile zero cur files files' l e = ground arith
open_chunks-length ext sizes tagfile (suc n) cur files files' l e =
    let o = open_out (ext cur (sizes cur)) l in
    let more = length-append files (o.file ∷ []) in
    elim (Bool-cases o.accept) [
      | inl accepted ↦
          let ih =
            open_chunks-length ext sizes tagfile n (cur + 1) (files ++ o.file ∷ []) files' o.ledger
              (sym (ap (λ r. r.1) (open_chunks_next ext sizes tagfile n cur files l accepted))
                ∙ e) in
          omega arith
      | inr refused ↦ absurd (
          none-some files'
            (sym (ap (λ r. r.1) (open_chunks_stop ext sizes tagfile n cur files l refused)) ∙ e))
    ]

-- What is so of a dump that is scheduled.
pub record IsWithin (s_internal s_external : ℕ) (extfile : Option ℕ)
    (written_total current_file : ℕ) (r : DumpRequest) (l : Ledger) (op : DumpOperation)
    : Type 0 where
  pub inside : r.offset + r.size ≤ r.fsize
  pub room : r.size ≤ r.freespace
  pub chunk_size_pos : 0 < r.chunk_size
  pub covers : r.size ≤ length op.extfiles * r.chunk_size
  pub needed : length op.extfiles * r.chunk_size < r.size + r.chunk_size
  pub made :
      op
      ≡ dump_operation
          (some s_internal)
          (some s_external)
          (open_in r.tag l).file
          op.extfiles
          r.offset
          r.size
          r.chunk_size
          extfile
          written_total
          current_file

schedule_dump-op :
    (s_internal s_external : ℕ) (extfile : Option ℕ) (written_total current_file : ℕ)
    (r : DumpRequest) (tagfile : Option ℕ) (p : Ledger × Option (List (Option ℕ)))
    (op : DumpOperation)
    → (schedule_dump s_internal s_external extfile written_total current_file r tagfile p).1
      ≡ some op
    → (p.1 ≡ some op.extfiles)
      × (op
          ≡ dump_operation
              (some s_internal)
              (some s_external)
              tagfile
              op.extfiles
              r.offset
              r.size
              r.chunk_size
              extfile
              written_total
              current_file)
unfolding schedule_dump dump_operation
schedule_dump-op s_internal s_external extfile written_total current_file r tagfile (l, none) op e =
    cc
schedule_dump-op s_internal s_external extfile written_total current_file r tagfile (l, some files)
      op e =
    elim (Bool-cases r.scheduled) [
      | inl go_on ↦
          let same : dump_operation (some s_internal) (some s_external) tagfile files r.offset
                r.size r.chunk_size extfile written_total current_file
              ≡ op =
            ground arith in
          (
            ap (λ (o : DumpOperation). some o.extfiles) same,
            subst
                (λ (o : DumpOperation).
                  o
                  ≡ dump_operation (some s_internal) (some s_external) tagfile o.extfiles r.offset
                      r.size r.chunk_size extfile written_total current_file)
                same refl,
          )
      | inr stop ↦ absurd (ground arith)
    ]

-- A dump that DMP schedules is one of the offset, size and chunk size that were asked for, its piece is
-- within the tag file and fits on the device, and its files are as many as the chunks: they cover the piece,
-- and without the last one they would not. Offset and size have at most 16 digits.
pub dmp-IsWithin :
    (s_internal s_external : ℕ) (extfile : Option ℕ) (written_total current_file : ℕ)
    (r : DumpRequest) (l l' : Ledger) (op : DumpOperation)
    → r.offset < 10 ^ 16
    → r.size < 10 ^ 16
    → dmp s_internal s_external extfile written_total current_file r l ≡ returns (l', some op)
    → IsWithin s_internal s_external extfile written_total current_file r l op
unfolding dmp
dmp-IsWithin s_internal s_external extfile written_total current_file r l l' op h1 h2 e =
    let i = open_in r.tag l in
    let n = num_chunks r.size r.chunk_size in
    let p = open_chunks r.ext (this_chunk_size n r.size r.chunk_size) i.file n 0 [] i.ledger in
    let s : Ledger × Option DumpOperation =
      schedule_dump s_internal s_external extfile written_total current_file r i.file p in
    let done : s ≡ (l', some op) = ground arith in
    let files =
      schedule_dump-op s_internal s_external extfile written_total current_file r i.file p op
        (ap (λ q. q.1) done) in
    let counted : length op.extfiles ≡ n =
      open_chunks-length r.ext (this_chunk_size n r.size r.chunk_size) i.file n 0 [] op.extfiles
        i.ledger files.0
      ∙ omega arith in
    let pos : 0 < r.chunk_size = ground arith in
    let plan = num_chunks_lem r.size r.chunk_size pos (omega arith) in
    record {
      inside = ground arith;
      room = ground arith;
      chunk_size_pos = pos;
      covers = rw counted plan.0;
      needed = rw counted plan.1;
      made = files.1;
    }
