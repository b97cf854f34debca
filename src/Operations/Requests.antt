-- ===== src/Operations/Requests.antt =====
-- DROS2/Actors/MessageProcessor.cpp, onDoReceive: what the commands GET, CPY and DMP do with the files of a
-- storage before an operation is scheduled. What the storage, the scheduler and the parser of the
-- command answer is an argument, `GetRequest`, `CopyRequest` or `DumpRequest`. A response is sent on every path and is
-- left out.
pub mod Ledgers
pub mod Plans
pub mod Chunks
pub mod Leaks
use data_recorder.Base.{
  ℕ, zero, suc, ◌+◌, ◌*◌, ◌/◌, Bool, true, false, Option, none, some, List, [], ◌∷◌, ◌++◌, ◌==◌,
  ltb, if◌then◌else◌, not, ◌&&◌, word, sub_word, Exit, returns, fatal,
}
use data_recorder.Operations.Copy.{CopyOperation, copy_operation}
use data_recorder.Operations.Dump.{DumpOperation, dump_operation}

-- What `getInFile` or `getOutFile` returned, and what the `File` says of itself.
pub record Answer : Type 0 where
  pub file : Option ℕ
  pub exists : Bool
  pub is_open : Bool

-- The pointers that the storages handed out, and those that `putFile` has deleted, oldest first.
pub record Ledger : Type 0 where
  pub handed_out : List ℕ
  pub put_back : List ℕ

unfoldable pub hand_out : Option ℕ → Ledger → Ledger
hand_out none l = l
hand_out (some f) l = record l { handed_out = l.handed_out ++ f ∷ [] }

-- `Storage::putFile`
unfoldable pub put_file : Option ℕ → Ledger → Ledger
put_file none l = l
put_file (some f) l = record l { put_back = l.put_back ++ f ∷ [] }

-- What `openIn` and `openOut` leave: the pointer, which they do not clear, and `accept`.
pub record Opened : Type 0 where
  pub ledger : Ledger
  pub file : Option ℕ
  pub accept : Bool

unfoldable pub open_in : Answer → Ledger → Opened
unfolding hand_out put_file
open_in a l =
    let l' = hand_out a.file l in
    elim a.file [
      | none ↦ record { ledger = l'; file = none; accept = false }
      | some f ↦
          if not a.exists
          then record { ledger = put_file (some f) l'; file = some f; accept = false }
          else if not a.is_open
          then record { ledger = put_file (some f) l'; file = some f; accept = false }
          else record { ledger = l'; file = some f; accept = true }
    ]

unfoldable pub open_out : Answer → Ledger → Opened
unfolding hand_out put_file
open_out a l =
    let l' = hand_out a.file l in
    elim a.file [
      | none ↦ record { ledger = l'; file = none; accept = false }
      | some f ↦
          if not a.exists
          then record { ledger = put_file (some f) l'; file = some f; accept = false }
          else if not a.is_open
          then record { ledger = put_file (some f) l'; file = some f; accept = false }
          else record { ledger = l'; file = some f; accept = true }
    ]

pub record GetRequest : Type 0 where
  pub idle : Bool
  pub well_formed : Bool
  pub offset : ℕ
  pub size : ℕ
  pub tag : Answer
  pub fsize : ℕ
  pub can_seek : Bool
  pub can_read : Bool

-- GET: the ledger, and whether the bytes were sent. `rfs_data` is the room of a response.
unfoldable pub get : ℕ → GetRequest → Ledger → Ledger × Bool
unfolding open_in put_file
get rfs_data r l =
    if not r.idle
    then (l, false)
    else if not r.well_formed
    then (l, false)
    else if ltb rfs_data r.size
    then (l, false)
    else let o = open_in r.tag l in
      if not o.accept
      then (o.ledger, false)
      else if ltb r.fsize (word (r.offset + r.size))
      then (o.ledger, false)
      else if not r.can_seek
      then (o.ledger, false)
      else if not r.can_read
      then (o.ledger, false)
      else (put_file o.file o.ledger, true)

-- `have_alt_external` is whether the metadata name the device, and `external` whether it is known.
pub record CopyRequest : Type 0 where
  pub have_alt_external : Bool
  pub external : Bool
  pub idle : Bool
  pub well_formed : Bool
  pub offset : ℕ
  pub size : ℕ
  pub tag : Answer
  pub fsize : ℕ
  pub freespace : ℕ
  pub ext : Answer
  pub scheduled : Bool

module _ (s_internal s_external : ℕ) where
  -- CPY: the ledger, and the operation if one was scheduled.
  unfoldable pub cpy : CopyRequest → Ledger → Ledger × Option CopyOperation
  unfolding open_in open_out put_file
  cpy r l =
      if r.have_alt_external && not r.external
      then (l, none)
      else if not r.idle
      then (l, none)
      else if not r.well_formed
      then (l, none)
      else let i = open_in r.tag l in
        if not i.accept
        then (i.ledger, none)
        else if ltb r.fsize (word (r.offset + r.size))
        then (put_file i.file i.ledger, none)
        else if not r.external
        then (put_file i.file i.ledger, none)
        else if ltb r.freespace r.size
        then (put_file i.file i.ledger, none)
        else let o = open_out r.ext i.ledger in
          if not o.accept
          then (put_file i.file o.ledger, none)
          else if not r.scheduled
          then (put_file i.file (put_file o.file o.ledger), none)
          else (
            o.ledger,
            some (copy_operation (some s_internal) (some s_external) i.file o.file r.offset r.size),
          )

-- The number of files of a dump.
unfoldable pub num_chunks : ℕ → ℕ → ℕ
num_chunks size chunk_size =
    let n = size / chunk_size in if not (word (n * chunk_size) == size) then word (n + 1) else n

-- The size that a file is created with.
unfoldable pub this_chunk_size : ℕ → ℕ → ℕ → ℕ → ℕ
this_chunk_size n size chunk_size cur_chunk =
    if not (cur_chunk == sub_word n 1)
    then chunk_size
    else sub_word size (word (sub_word n 1 * chunk_size))

-- The loop that puts back the files created so far.
unfoldable pub put_files : List (Option ℕ) → Ledger → Ledger
unfolding put_file
put_files [] l = l
put_files (f ∷ files) l = put_files files (put_file f l)

-- The loop over the chunks, the number of those to come first. `ext` answers for the file of a chunk when it is
-- asked for with a size.
unfoldable pub open_chunks :
    (ext : ℕ → ℕ → Answer) (sizes : ℕ → ℕ) (tagfile : Option ℕ)
    → ℕ
    → ℕ
    → List (Option ℕ)
    → Ledger
    → Ledger × Option (List (Option ℕ))
unfolding put_file put_files
open_chunks ext sizes tagfile zero cur_chunk files l = (l, some files)
open_chunks ext sizes tagfile (suc n) cur_chunk files l =
    let o = open_out (ext cur_chunk (sizes cur_chunk)) l in
    elim o.accept [
      | false ↦ (put_files files (put_file o.file (put_file tagfile o.ledger)), none)
      | true ↦ open_chunks ext sizes tagfile n (cur_chunk + 1) (files ++ o.file ∷ []) o.ledger
    ]

pub record DumpRequest : Type 0 where
  pub have_alt_external : Bool
  pub external : Bool
  pub idle : Bool
  pub well_formed : Bool
  pub offset : ℕ
  pub size : ℕ
  pub chunk_size : ℕ
  pub tag : Answer
  pub fsize : ℕ
  pub freespace : ℕ
  pub ext : ℕ → ℕ → Answer
  pub scheduled : Bool

-- The last three parameters are what the memory of the new operation has in the members that its
-- constructor leaves unset.
module _ (s_internal s_external : ℕ) (extfile : Option ℕ) (written_total current_file : ℕ) where
  -- The end of DMP, with the files of the chunks, if all were created.
  unfoldable pub schedule_dump :
      DumpRequest → Option ℕ → Ledger × Option (List (Option ℕ)) → Ledger × Option DumpOperation
  unfolding put_file put_files
  schedule_dump r tagfile (l, none) = (l, none)
  schedule_dump r tagfile (l, some files) =
      if not r.scheduled then (put_files files (put_file tagfile l), none) else (
        l,
        some (
            dump_operation (some s_internal) (some s_external) tagfile files r.offset r.size
              r.chunk_size extfile written_total current_file),
      )

  -- DMP: the ledger, and the operation if one was scheduled.
  unfoldable pub dmp : DumpRequest → Ledger → Exit (Ledger × Option DumpOperation)
  unfolding open_in put_file num_chunks this_chunk_size open_chunks
  dmp r l =
      if r.have_alt_external && not r.external
      then returns (l, none)
      else if not r.idle
      then returns (l, none)
      else if not r.well_formed
      then returns (l, none)
      else let i = open_in r.tag l in
        if not i.accept
        then returns (i.ledger, none)
        else if ltb r.fsize (word (r.offset + r.size))
        then returns (put_file i.file i.ledger, none)
        else if not r.external
        then returns (put_file i.file i.ledger, none)
        else if ltb r.freespace r.size
        then returns (put_file i.file i.ledger, none)
        else if r.chunk_size == 0
        then fatal
        else let n = num_chunks r.size r.chunk_size in
          returns (
            schedule_dump r i.file
              (open_chunks r.ext (this_chunk_size n r.size r.chunk_size) i.file n 0 [] i.ledger))
