-- ===== src/Tests/Copying.antt =====
-- Copies, dumps and the commands that ask for them, at concrete inputs.
use data_recorder.Base.{
  ℕ, ◌+◌, ◌≡◌, ◌≤◌, refl, true, false, none, some, [], ◌∷◌, ◌++◌, ◌==◌, if◌then◌else◌, arith,
  returns, take, inr,
}
use data_recorder.Operations.Files.{Files}
use data_recorder.Operations.Files.Disk.{Disk, disk, disk_posix, disk_patient, disk_calm}
use data_recorder.Operations.Copy.Whole.{IsReleased, copy_run_lem, copy_run_all}
use data_recorder.Operations.Copy as Copy
use data_recorder.Operations.Requests.{
  Answer, Ledger, CopyRequest, cpy, DumpRequest, dmp, GetRequest, get, open_in, open_out, hand_out,
  num_chunks, open_chunks, schedule_dump, this_chunk_size,
}
use data_recorder.Operations.Requests.Ledgers.{count, IsBalanced, copy_files, cpy-IsBalanced}
use data_recorder.Operations.Requests.Chunks.{dump_files, dmp-IsBalanced}
use data_recorder.Operations.Requests.Plans.{IsWithin, dmp-IsWithin}
use data_recorder.Operations.Requests.Leaks.{IsGranted, dmp_puts_twice, get_lem}
use data_recorder.Operations.Dump.{DumpOperation, dump_operation}
use data_recorder.Operations.Dump as Dump
use data_recorder.Operations.Dump.Ready.{IsDumped}
use data_recorder.Operations.Dump.Whole.{dump_run_all}

-- File 7 holds five bytes, `stalls` reads are refused.
abbrev five_bytes : ℕ → Disk
five_bytes stalls = record {
  contents = λ f. if f == 7 then 10 ∷ 20 ∷ 30 ∷ 40 ∷ 50 ∷ [] else [];
  place = λ f. 0;
  written = λ f. [];
  stalls = stalls;
}

abbrev all_open : Files
all_open = record { is_open = λ f. true; put_back = [] }

copy_run_example :
    let op = Copy.copy_operation (some 1) (some 2) (some 7) (some 8) 1 3 in
    let r = Copy.thread_op_run disk true 9 op (five_bytes 2) all_open in
    (r.returned ≡ true)
    × (r.world.written 8 ≡ [] ++ (20 ∷ 30 ∷ 40 ∷ []))
    × (r.op.cursor.written ≡ 3)
copy_run_example =
    copy_run_all disk disk_posix disk_patient 7 8 3 (omega arith) disk_calm 1 2 9 1 (five_bytes 2)
      all_open refl refl (λ w o. refl) (omega arith) (omega arith) (omega arith)

copy_release_example :
    let op = Copy.copy_operation (some 1) (some 2) (some 7) (some 8) 1 3 in
    let r = Copy.thread_op_run disk true 9 op (five_bytes 2) all_open in
    (r.returned ≡ true)
    × (r.world.written 8 ≡ [] ++ take r.op.cursor.written (20 ∷ 30 ∷ 40 ∷ 50 ∷ []))
    × (r.op.cursor.written ≤ 3)
    × IsReleased 7 8 all_open r.files
copy_release_example =
    copy_run_lem disk disk_posix disk_patient 7 8 3 (omega arith) 1 2 9 1 (five_bytes 2) all_open
      refl refl (λ w o. refl) (omega arith) (omega arith) (omega arith)

dump_run_example :
    let op = Dump.dump_operation (some 1) (some 2) (some 7) (some 8 ∷ some 9 ∷ []) 1 3 2 none 0 0 in
    IsDumped disk disk_posix 7
      (8 ∷ 9 ∷ [])
      ((20 ∷ 30 ∷ []) ∷ (40 ∷ []) ∷ [])
      (five_bytes 2)
      all_open
      (Dump.thread_op_run disk true 9 op (five_bytes 2) all_open)
dump_run_example =
    dump_run_all disk disk_posix disk_patient disk_calm (λ w t o. refl) 9 7 1 2 8 (9 ∷ []) 1 3 2 0
      (five_bytes 2) all_open (omega arith, (omega arith, tt)) ((omega arith, tt), (tt, tt)) refl
      (refl, (refl, tt)) (omega arith) (omega arith) (omega arith) (omega arith) (omega arith)

-- A file that the storage hands out in good order.
abbrev good : ℕ → Answer
good f = record { file = some f; exists = true; is_open = true }

abbrev empty_ledger : Ledger
empty_ledger = record { handed_out = []; put_back = [] }

-- The external file cannot be created.
abbrev copy_refused : CopyRequest
copy_refused = record {
  have_alt_external = false;
  external = true;
  idle = true;
  well_formed = true;
  offset = 1;
  size = 3;
  tag = good 7;
  fsize = 5;
  freespace = 100;
  ext = record { file = none; exists = false; is_open = false };
  scheduled = true;
}

cpy_example :
    IsBalanced
      (cpy 1 2 copy_refused empty_ledger).0
      (copy_files (cpy 1 2 copy_refused empty_ledger).1)
cpy_example = cpy-IsBalanced 1 2 copy_refused empty_ledger (λ f. refl)

abbrev dump_request : (ℕ → ℕ → Answer) → DumpRequest
dump_request ext = record {
  have_alt_external = false;
  external = true;
  idle = true;
  well_formed = true;
  offset = 1;
  size = 3;
  chunk_size = 2;
  tag = good 7;
  fsize = 5;
  freespace = 100;
  ext = ext;
  scheduled = true;
}

abbrev handed : Ledger
handed = record { handed_out = 7 ∷ 8 ∷ 9 ∷ []; put_back = [] }

abbrev the_dump : DumpOperation
the_dump = dump_operation (some 1) (some 2) (some 7) (some 8 ∷ some 9 ∷ []) 1 3 2 none 0 0

dmp_is_scheduled :
    dmp 1 2 none 0 0 (dump_request (λ c _. good (8 + c))) empty_ledger
    ≡ returns (handed, some the_dump)
unfolding dmp open_in open_out hand_out num_chunks open_chunks schedule_dump this_chunk_size
dmp_is_scheduled = refl

dmp_example : IsBalanced handed (dump_files (some the_dump))
dmp_example =
    dmp-IsBalanced 1 2 none 0 0 (dump_request (λ c _. good (8 + c))) empty_ledger handed
      (some the_dump) (λ c _. inr (refl, refl)) (λ f. refl) dmp_is_scheduled

dmp_plan_example : IsWithin 1 2 none 0 0 (dump_request (λ c _. good (8 + c))) empty_ledger the_dump
dmp_plan_example =
    dmp-IsWithin 1 2 none 0 0 (dump_request (λ c _. good (8 + c))) empty_ledger handed the_dump
      (omega arith) (omega arith) dmp_is_scheduled

abbrev lost_file : ℕ → ℕ → Answer
lost_file c _ = record { file = some 8; exists = false; is_open = false }

lost-IsGranted : IsGranted (dump_request lost_file) empty_ledger
unfolding open_in
lost-IsGranted = record {
  device = refl;
  idle = refl;
  formed = refl;
  opened = refl;
  inside = omega arith;
  room = omega arith;
  small = omega arith;
  chunks = omega arith;
  some_bytes = omega arith;
}

dmp_twice_example :
    (l' : Ledger) × (dmp 1 2 none 0 0 (dump_request lost_file) empty_ledger ≡ returns (l', none))
    × (count 8 l'.handed_out ≡ count 8 [] + 1)
    × (count 8 l'.put_back ≡ count 8 [] + 2)
dmp_twice_example =
    dmp_puts_twice 1 2 none 0 0 (dump_request lost_file) empty_ledger 7 8 lost-IsGranted refl
      (omega arith) (λ _. (refl, refl))

abbrev beyond_file : GetRequest
beyond_file = record {
  idle = true;
  well_formed = true;
  offset = 4;
  size = 3;
  tag = good 7;
  fsize = 5;
  can_seek = true;
  can_read = true;
}

tag_opens : (open_in (good 7) empty_ledger).accept ≡ true
unfolding open_in
tag_opens = refl

get_example :
    IsBalanced
      (get 100 beyond_file empty_ledger).0
      (if (get 100 beyond_file empty_ledger).1 then [] else 7 ∷ [])
get_example = get_lem 100 beyond_file empty_ledger (λ f. refl) tag_opens refl refl (omega arith)
