-- ===== src/Operations/Copy/Whole.antt =====
-- A copy from its start to its end: what it writes, and that it lets go of its files.
use data_recorder.Base.{
  ℕ, ◌+◌, ◌≤◌, ◌<◌, ◌^◌, ◌≡◌, ◌≢◌, refl, sym, ap, ◌∙◌, ◌⊎◌, inl, inr, true, false, some, [], ◌∷◌,
  ◌++◌, arith, length, take, drop, subst,
}
use data_recorder.Operations.Files.{System, IsPosix, Files, clean_up}
use data_recorder.Operations.Files.Release.{
  clean_up-put_back, clean_up-closed, clean_up-still_closed,
}
use data_recorder.Operations.Transfer.{Cursor, transfer, left, broken}
use data_recorder.Operations.Transfer.Slices.{append_nil, append_assoc}
use data_recorder.Operations.Transfer.Content.{Seeks, IsPiece, transfer-IsPiece, cursor_of}
use data_recorder.Operations.Transfer.Ends.{IsPatient, transfer_ends}
use data_recorder.Operations.Transfer.Calm.{IsCalm, transfer_full}
use data_recorder.Operations.Copy.{
  CopyOperation, copy_operation, cleanup, copy_files, thread_op_run,
}

-- The two files are closed and put back, first the tag file.
pub record IsReleased (tagfile extfile : ℕ) (before after : Files) : Type 0 where
  pub all_put_back : after.put_back ≡ before.put_back ++ tagfile ∷ extfile ∷ []
  pub tagfile_closed : after.is_open tagfile ≡ false
  pub extfile_closed : after.is_open extfile ≡ false

cleanup-IsReleased :
    (a b tagfile extfile : ℕ) (op : CopyOperation) (fs : Files)
    → op.s1 ≡ some a
    → op.s2 ≡ some b
    → op.tagfile ≡ some tagfile
    → op.extfile ≡ some extfile
    → IsReleased tagfile extfile fs (cleanup op fs)
unfolding cleanup
cleanup-IsReleased a b tagfile extfile op fs e1 e2 et ee =
    let fs1 = clean_up (some a) (some tagfile) fs in
    rw (e1, e2, et, ee)
      (record {
        all_put_back =
            clean_up-put_back b (some extfile) fs1
            ∙ ap (λ l. l ++ extfile ∷ []) (clean_up-put_back a (some tagfile) fs)
            ∙ append_assoc fs.put_back (tagfile ∷ []) (extfile ∷ []);
        tagfile_closed =
            clean_up-still_closed (some b) (some extfile) tagfile fs1
              (clean_up-closed (some a) tagfile fs);
        extfile_closed = clean_up-closed (some b) extfile fs1;
      })

module _ {W : Type 0} (s : System W) (posix : IsPosix s) (patient : IsPatient s posix)
    (tagfile extfile size : ℕ) (apart : tagfile ≢ extfile) where
  start-IsPiece :
      (w : W) (offset : ℕ)
      → IsPiece s posix false tagfile extfile size apart
          (posix.input w tagfile)
          (posix.output w extfile)
          offset
          w
          (record { cur_tag_offset = offset; written = 0 })
  start-IsPiece w offset = record {
    input_is = refl;
    output_is = sym (append_nil (posix.output w extfile));
    place = omega arith;
    within = omega arith;
  }

  run_is_copy_files :
      (a b fuel offset : ℕ) (w : W) (fs : Files)
      → fs.is_open tagfile ≡ true
      → fs.is_open extfile ≡ true
      → let op = copy_operation (some a) (some b) (some tagfile) (some extfile) offset size in
        thread_op_run s true fuel op w fs ≡ copy_files s fuel tagfile extfile op w fs
  unfolding thread_op_run copy_operation
  run_is_copy_files a b fuel offset w fs t e = rw (t, e) refl

  copy_files_lem :
      (fuel : ℕ) (op : CopyOperation) (w : W) (fs : Files) (c : Cursor)
      → let r = transfer s false tagfile extfile op.size fuel w op.cursor in
        (r.1 ≡ left c) ⊎ (r.1 ≡ broken c)
        → copy_files s fuel tagfile extfile op w fs ≡ record {
          op = record op { cursor = c };
          world = (transfer s false tagfile extfile op.size fuel w op.cursor).0;
          files = cleanup (record op { cursor = c }) fs;
          returned = true;
        }
  unfolding copy_files
  copy_files_lem fuel op w fs c (inl e) = rw (e, copy_files) refl
  copy_files_lem fuel op w fs c (inr e) = rw (e, copy_files) refl

  -- A copy of `size` bytes from `offset` on comes to an end, whatever the calls return and whenever another
  -- thread interrupts it, and then the external file has received the first `written` bytes from
  -- `offset` on of the tag file, `written` is at most `size`, and both files are closed and put back.
  -- Both files are different and open, the bytes stand in the tag file, seeks succeed, and calls make
  -- no progress only so many times that the fuel is enough.
  pub copy_run_lem :
      (a b fuel offset : ℕ) (w : W) (fs : Files)
      → fs.is_open tagfile ≡ true
      → fs.is_open extfile ≡ true
      → Seeks s posix false tagfile extfile size apart
      → offset + size < 2 ^ 64
      → offset + size ≤ length (posix.input w tagfile)
      → patient.patience w + size < fuel
      → let op = copy_operation (some a) (some b) (some tagfile) (some extfile) offset size in
        let r = thread_op_run s true fuel op w fs in
        (r.returned ≡ true)
        × (posix.output r.world extfile
            ≡ posix.output w extfile
              ++ take r.op.cursor.written (drop offset (posix.input w tagfile)))
        × (r.op.cursor.written ≤ size)
        × IsReleased tagfile extfile fs r.files
  unfolding copy_operation
  copy_run_lem a b fuel offset w fs t e seeks fits inside enough =
      let op = copy_operation (some a) (some b) (some tagfile) (some extfile) offset size in
      let start = start-IsPiece w offset in
      let src = posix.input w tagfile in
      let before = posix.output w extfile in
      let (c, ends) =
        transfer_ends s posix patient false tagfile extfile size apart fuel src before offset w
          op.cursor (inr seeks) fits inside start (omega arith) in
      let piece =
        transfer-IsPiece s posix false tagfile extfile size apart fuel src before offset w op.cursor
          (inr seeks) fits start in
      let at_c : cursor_of (transfer s false tagfile extfile size fuel w op.cursor).1 ≡ c =
        elim ends [ inl q ↦ ap cursor_of q | inr q ↦ ap cursor_of q ] in
      let out =
        subst
          (λ x.
            posix.output (transfer s false tagfile extfile size fuel w op.cursor).0 extfile
            ≡ before ++ take (Cursor.written x) (drop offset src))
          at_c piece.output_is in
      let few = subst (λ x. Cursor.written x ≤ size) at_c piece.within in
      rw (run_is_copy_files a b fuel offset w fs t e, copy_files_lem fuel op w fs c ends)
        (
          refl,
          out,
          few,
          cleanup-IsReleased a b tagfile extfile (record op { cursor = c }) fs refl refl refl refl,
        )

  -- A copy of `size` bytes from `offset` on comes to an end, and then the external file has received exactly
  -- these bytes of the tag file, in order, and `written` is `size`. Both files are different and open, the
  -- bytes stand in the tag file, seeks succeed, no other thread interrupts, the only error is `EAGAIN`,
  -- and calls make no progress only so many times that the fuel is enough.
  pub copy_run_all :
      (calm : IsCalm s) (a b fuel offset : ℕ) (w : W) (fs : Files)
      → fs.is_open tagfile ≡ true
      → fs.is_open extfile ≡ true
      → Seeks s posix false tagfile extfile size apart
      → offset + size < 2 ^ 64
      → offset + size ≤ length (posix.input w tagfile)
      → patient.patience w + size < fuel
      → let op = copy_operation (some a) (some b) (some tagfile) (some extfile) offset size in
        let r = thread_op_run s true fuel op w fs in
        (r.returned ≡ true)
        × (posix.output r.world extfile
            ≡ posix.output w extfile ++ take size (drop offset (posix.input w tagfile)))
        × (r.op.cursor.written ≡ size)
  unfolding copy_operation
  copy_run_all calm a b fuel offset w fs t e seeks fits inside enough =
      let op = copy_operation (some a) (some b) (some tagfile) (some extfile) offset size in
      let (c, is_left, all, piece, out) =
        transfer_full s posix calm false tagfile extfile size apart patient fuel
          (posix.input w tagfile) (posix.output w extfile) offset w op.cursor seeks fits inside
          (start-IsPiece w offset) (omega arith) in
      rw (run_is_copy_files a b fuel offset w fs t e, copy_files_lem fuel op w fs c (inl is_left))
        (refl, out, all)
