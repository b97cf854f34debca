-- ===== src/Operations/Dump.antt =====
-- DROS2/Operations/DumpOperation.h: the thread of a dump, which copies a piece of the tag file to several
-- external files, one chunk to each.
pub mod Steps
pub mod Chunks
pub mod Ready
pub mod Loop
pub mod Whole
use data_recorder.Base.{
  ℕ, ◌+◌, ◌*◌, Bool, true, false, Option, none, some, List, [], ◌∷◌, ◌==◌, if◌then◌else◌, not,
  length, word, sub_word,
}
use data_recorder.Operations.Files.{System, Files, clean_up}
use data_recorder.Operations.Transfer.{Cursor, Ending, transfer, left, broken, spinning}

-- The members; `curTagOffset` and `written` are the cursor.
pub record DumpOperation : Type 0 where
  pub s1 : Option ℕ
  pub s2 : Option ℕ
  pub tagfile : Option ℕ
  pub extfile : Option ℕ
  pub extfiles : List (Option ℕ)
  pub size : ℕ
  pub chunk_size : ℕ
  pub cursor : Cursor
  pub written_total : ℕ
  pub current_file : ℕ

-- The constructor. It leaves `extfile`, `written_total` and `current_file` as the memory had them, which
-- are the last three arguments.
unfoldable pub dump_operation :
    (s1 s2 tagfile : Option ℕ) (extfiles : List (Option ℕ)) (offset size chunk_size : ℕ)
    (extfile : Option ℕ) (written_total current_file : ℕ)
    → DumpOperation
dump_operation s1 s2 tagfile extfiles offset size chunk_size extfile written_total current_file =
    record {
      s1 = s1;
      s2 = s2;
      tagfile = tagfile;
      extfile = extfile;
      extfiles = extfiles;
      size = size;
      chunk_size = chunk_size;
      cursor = record { cur_tag_offset = offset; written = 0 };
      written_total = written_total;
      current_file = current_file;
    }

-- The loop that takes the files left off the queue.
unfoldable pub clean_up_all : Option ℕ → List (Option ℕ) → Files → Files
clean_up_all s [] fs = fs
clean_up_all s (file ∷ files) fs = clean_up_all s files (clean_up s file fs)

-- The code at `cleanup_outer`.
unfoldable pub cleanup_outer : DumpOperation → Files → Files
cleanup_outer op fs =
    clean_up op.s1 op.tagfile (clean_up_all op.s2 op.extfiles (clean_up op.s2 op.extfile fs))

-- The code at `cleanup_inner_error`, up to the `goto`.
unfoldable pub cleanup_inner_error : DumpOperation → Files → DumpOperation × Files
cleanup_inner_error op fs = (
  record op { extfile = none; extfiles = [] },
  clean_up_all op.s2 op.extfiles (clean_up op.s2 op.extfile fs),
)

unfoldable pub size_for_this_chunk : ℕ → DumpOperation → ℕ
size_for_this_chunk num_files op =
    if not (op.current_file == sub_word num_files 1)
    then op.chunk_size
    else sub_word op.size (word (sub_word num_files 1 * op.chunk_size))

-- What `threadOpRun` comes to.
pub record DumpRun (W : Type 0) : Type 0 where
  pub op : DumpOperation
  pub world : W
  pub files : Files
  pub returned : Bool

unfoldable pub finish : {W : Type 0} → DumpOperation → W → Files → DumpRun W
unfolding cleanup_outer
finish op w fs = record { op = op; world = w; files = cleanup_outer op fs; returned = true }

unfoldable pub fail : {W : Type 0} → DumpOperation → W → Files → DumpRun W
unfolding cleanup_inner_error finish
fail op w fs = let (op', fs') = cleanup_inner_error op fs in finish op' w fs'

-- The members when the loop of a chunk has stopped at a cursor.
unfoldable pub stopped_at : Cursor → DumpOperation → DumpOperation
stopped_at c op = record op { cursor = c; written_total = word (op.written_total + c.written) }

-- The code at `cleanup_inner` and the next line.
unfoldable pub next_chunk : DumpOperation → Files → DumpOperation × Files
next_chunk op fs = (
  record op { extfile = none; current_file = word (op.current_file + 1) },
  clean_up op.s2 op.extfile fs,
)

module _ {W : Type 0} (s : System W) (fuel num_files tagfile : ℕ) where
  -- A turn of the outer loop takes the files one by one. The fuel is for the loop of each chunk.
  unfoldable pub dump_files : List (Option ℕ) → DumpOperation → W → Files → DumpRun W
  unfolding finish fail stopped_at next_chunk size_for_this_chunk
  dump_files [] op w fs = finish (record op { extfiles = [] }) (s.poll w).0 fs
  dump_files (tmp ∷ files) op w fs =
      let (w0, interrupted) = s.poll w in
      if interrupted then finish (record op { extfiles = tmp ∷ files }) w0 fs else elim tmp [
        | none ↦ fail (record op { extfiles = files }) w0 fs
        | some extfile ↦
            let op0 : DumpOperation = record op {
              extfiles = files;
              extfile = some extfile;
              cursor = record { cur_tag_offset = op.cursor.cur_tag_offset; written = 0 };
            } in
            if not (fs.is_open extfile)
            then fail op0 w0 fs
            else let (w1, ending) =
                transfer s true tagfile extfile (size_for_this_chunk num_files op) fuel w0
                  op0.cursor in
              elim ending [
                | left c ↦
                    let (op1, fs1) = next_chunk (stopped_at c op0) fs in dump_files files op1 w1 fs1
                | broken c ↦ fail (stopped_at c op0) w1 fs
                | spinning c ↦ record {
                  op = stopped_at c op0;
                  world = w1;
                  files = fs;
                  returned = false;
                }
              ]
      ]

module _ {W : Type 0} (s : System W) where
  -- `threadOpRun`; the argument is whether `malloc` gave a buffer.
  unfoldable pub thread_op_run : Bool → ℕ → DumpOperation → W → Files → DumpRun W
  unfolding finish
  thread_op_run buf fuel op w fs = if not buf then finish op w fs else elim op.tagfile [
    | none ↦ finish op w fs
    | some tagfile ↦
        if not (fs.is_open tagfile)
        then finish op w fs
        else dump_files s fuel (length op.extfiles) tagfile op.extfiles op w fs
  ]
