-- ===== src/Operations/Dump/Whole.antt =====
-- A dump from its start to its end: each file receives its chunk, and all files are let go of.
use data_recorder.Base.{
  ℕ, suc, ◌+◌, ◌*◌, ◌≤◌, ◌<◌, ◌^◌, ◌≡◌, ◌≢◌, refl, ap, true, none, some, List, [], ◌∷◌, map, arith,
  All, length, take, drop,
}
use data_recorder.Operations.Files.{System, IsPosix, Files}
use data_recorder.Operations.Transfer.Ends.{IsPatient}
use data_recorder.Operations.Transfer.Calm.{IsCalm}
use data_recorder.Operations.Dump.{dump_operation, thread_op_run}
use data_recorder.Operations.Dump.Chunks.{parts, IsPlan}
use data_recorder.Operations.Dump.Ready.{AreDistinct, IsReady, IsDumped}
use data_recorder.Operations.Dump.Loop.{dump_files-IsDumped}

length-map-some : (files : List ℕ) → length (map some files) ≡ length files
length-map-some [] = refl
length-map-some (f ∷ files) = ap suc (length-map-some files)

module _ {W : Type 0} (s : System W) (posix : IsPosix s) (patient : IsPatient s posix)
    (calm : IsCalm s) (seeks : (w : W) (tagfile o : ℕ) → (s.lseek w tagfile o).1 ≡ some o)
    (fuel tagfile a b : ℕ) where
  -- A dump of the `size` bytes of the tag file from `offset` on to the files `f ∷ files`, in chunks of
  -- `chunk_size`, comes to an end. Then each file has received its chunk of these bytes, byte for byte, the
  -- last file what is left, and all files are closed and put back once, the tag file last. All files are
  -- different and open, no thread interrupts, seeks succeed, the only error is `EAGAIN`, and calls make no
  -- progress only so many times that the fuel is enough. The chunks but for the last are within `size`, the
  -- bytes stand in the tag file, and the members that the constructor leaves unset were 0.
  pub dump_run_all :
      (f : ℕ) (files : List ℕ) (offset size chunk_size written_total : ℕ) (w : W) (fs : Files)
      → All (λ g. tagfile ≢ g) (f ∷ files)
      → AreDistinct (f ∷ files)
      → fs.is_open tagfile ≡ true
      → All (λ g. fs.is_open g ≡ true) (f ∷ files)
      → suc (length files) < 2 ^ 64
      → length files * chunk_size ≤ size
      → offset + size ≤ length (posix.input w tagfile)
      → length (posix.input w tagfile) < 2 ^ 64
      → patient.patience w + size < fuel
      → let op =
          dump_operation
            (some a)
            (some b)
            (some tagfile)
            (map some (f ∷ files))
            offset
            size
            chunk_size
            none
            written_total
            0 in
        IsDumped s posix tagfile
          (f ∷ files)
          (parts chunk_size (length (f ∷ files)) (take size (drop offset (posix.input w tagfile))))
          w
          fs
          (thread_op_run s true fuel op w fs)
  unfolding thread_op_run dump_operation
  dump_run_all f files offset size chunk_size written_total w fs apart distinct t opened few fits
        inside addressable enough =
      let src = posix.input w tagfile in
      let op =
        dump_operation (some a) (some b) (some tagfile) (map some (f ∷ files)) offset size
          chunk_size none written_total 0 in
      let plan : IsPlan (suc (length files)) files op size = record {
        numbered = omega arith;
        countable = few;
        sum = omega arith;
        sized = omega arith;
        enough = fits;
      } in
      let ready : IsReady s posix patient fuel (suc (length files)) tagfile a b src (f ∷ files) op w
          fs size =
        record {
          planned = plan;
          apart = apart;
          distinct = distinct;
          opened = opened;
          no_extfile = refl;
          storage1 = refl;
          storage2 = refl;
          tag = refl;
          same_input = refl;
          addressable = addressable;
          inside = inside;
          enough = enough;
        } in
      rw (t, length-map-some files)
        (dump_files-IsDumped s posix patient calm seeks fuel (suc (length files)) tagfile a b src
          (f ∷ files) op w fs size ready)
