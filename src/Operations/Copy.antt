-- ===== src/Operations/Copy.antt =====
-- DROS2/Operations/CopyOperation.h: the thread of a copy, from its tests to its clean-up.
pub mod Whole
use data_recorder.Base.{ℕ, Bool, true, false, Option, none, some, if◌then◌else◌, not}
use data_recorder.Operations.Files.{System, Files, clean_up}
use data_recorder.Operations.Transfer.{Cursor, Ending, transfer, left, broken, spinning}

-- The members. The storages and files are pointers; `written` and `curTagOffset` are the cursor.
pub record CopyOperation : Type 0 where
  pub s1 : Option ℕ
  pub s2 : Option ℕ
  pub tagfile : Option ℕ
  pub extfile : Option ℕ
  pub size : ℕ
  pub cursor : Cursor

-- The constructor.
unfoldable pub copy_operation : (s1 s2 tagfile extfile : Option ℕ) (offset size : ℕ) → CopyOperation
copy_operation s1 s2 tagfile extfile offset size = record {
  s1 = s1;
  s2 = s2;
  tagfile = tagfile;
  extfile = extfile;
  size = size;
  cursor = record { cur_tag_offset = offset; written = 0 };
}

-- The code at the label `cleanup`.
unfoldable pub cleanup : CopyOperation → Files → Files
cleanup op fs = clean_up op.s2 op.extfile (clean_up op.s1 op.tagfile fs)

-- What `threadOpRun` comes to.
pub record CopyRun (W : Type 0) : Type 0 where
  pub op : CopyOperation
  pub world : W
  pub files : Files
  pub returned : Bool

module _ {W : Type 0} (s : System W) where
  -- The code behind the tests, with both files.
  unfoldable pub copy_files : ℕ → ℕ → ℕ → CopyOperation → W → Files → CopyRun W
  copy_files fuel tagfile extfile op w fs =
      let (w', ending) = transfer s false tagfile extfile op.size fuel w op.cursor in
      elim ending [
        | left c ↦
            let op' : CopyOperation = record op { cursor = c } in
            record { op = op'; world = w'; files = cleanup op' fs; returned = true }
        | broken c ↦
            let op' : CopyOperation = record op { cursor = c } in
            record { op = op'; world = w'; files = cleanup op' fs; returned = true }
        | spinning c ↦ record {
          op = record op { cursor = c };
          world = w';
          files = fs;
          returned = false;
        }
      ]

  -- `threadOpRun`; the argument is whether `malloc` gave a buffer. The clean-up is reached from every
  -- test that fails.
  unfoldable pub thread_op_run : Bool → ℕ → CopyOperation → W → Files → CopyRun W
  unfolding cleanup
  thread_op_run buf fuel op w fs =
      let stop : CopyRun W = record {
        op = op;
        world = w;
        files = cleanup op fs;
        returned = true;
      } in
      if not buf then stop else elim op.tagfile [
        | none ↦ stop
        | some tagfile ↦ if not (fs.is_open tagfile) then stop else elim op.extfile [
          | none ↦ stop
          | some extfile ↦
              if not (fs.is_open extfile) then stop else copy_files fuel tagfile extfile op w fs
        ]
      ]
