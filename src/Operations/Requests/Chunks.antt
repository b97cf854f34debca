-- ===== src/Operations/Requests/Chunks.antt =====
-- Which of the files that DMP was handed it has put back when it responds.
use data_recorder.Base.{
  ℕ, zero, suc, ◌+◌, ◌≡◌, refl, ap, ◌∙◌, ◌⊎◌, inl, inr, true, false, Option, none, some, List, [],
  ◌∷◌, ◌++◌, arith, Bool-cases, Option-cases, returns,
}
use data_recorder.Operations.Files.Release.{pointee}
use data_recorder.Operations.Dump.{DumpOperation, dump_operation}
use data_recorder.Operations.Requests.{
  Answer, Ledger, put_file, open_in, open_out, put_files, open_chunks, num_chunks, this_chunk_size,
  DumpRequest, schedule_dump, dmp,
}
use data_recorder.Operations.Requests.Ledgers.{
  count, count-append, IsBalanced, put_file-count, open_in-Opens, open_out-Opens,
}

abbrev pub pointees : List (Option ℕ) → List ℕ
pointees [] = []
pointees (f ∷ files) = pointee f ++ pointees files

-- The files that a dump has.
abbrev pub dump_files : Option DumpOperation → List ℕ
dump_files none = []
dump_files (some op) = pointee op.tagfile ++ pointees op.extfiles

-- A file that is handed out exists and is open.
abbrev pub IsSound : Answer → Type 0
IsSound a = (a.file ≡ none) ⊎ ((a.exists ≡ true) × (a.is_open ≡ true))

sound_refused :
    (a : Answer) (l : Ledger) → IsSound a → (open_out a l).accept ≡ false → a.file ≡ none
unfolding open_out
sound_refused a l (inl e) h = e
sound_refused a l (inr (e, o)) h = elim (Option-cases a.file) [
  | inl q ↦ q
  | inr (g, q) ↦ absurd (ground arith)
]

put_files-count :
    (f : ℕ) (files : List (Option ℕ)) (l : Ledger)
    → (count f (put_files files l).put_back ≡ count f l.put_back + count f (pointees files))
      × ((put_files files l).handed_out ≡ l.handed_out)
unfolding put_files
put_files-count f [] l = (omega arith, refl)
put_files-count f (g ∷ files) l =
    let ih = put_files-count f files (put_file g l) in
    let one = put_file-count f g l in
    (
      let both = count-append f (pointee g) (pointees files) in omega (arith, ih.0, one.0),
      ih.1 ∙ one.1,
    )

pointees-append :
    (f : ℕ) (files : List (Option ℕ)) (g : Option ℕ)
    → count f (pointees (files ++ g ∷ [])) ≡ count f (pointees files) + count f (pointee g)
pointees-append f [] g = omega (arith, count-append f (pointee g) [])
pointees-append f (x ∷ files) g =
    let ih = pointees-append f files g in
    let a = count-append f (pointee x) (pointees files) in
    let b = count-append f (pointee x) (pointees (files ++ g ∷ [])) in omega arith

abbrev owned : Option ℕ → Option (List (Option ℕ)) → List ℕ
owned tagfile none = []
owned tagfile (some files) = pointee tagfile ++ pointees files

open_chunks-count :
    (ext : ℕ → ℕ → Answer) (sizes : ℕ → ℕ) (tagfile : Option ℕ) (n cur : ℕ)
    (files : List (Option ℕ)) (l : Ledger) (f : ℕ)
    → ((cur size : ℕ) → IsSound (ext cur size))
    → count f l.handed_out ≡ count f l.put_back + count f (pointee tagfile ++ pointees files)
    → let r = open_chunks ext sizes tagfile n cur files l in
      count f r.0.handed_out ≡ count f r.0.put_back + count f (owned tagfile r.1)
unfolding open_chunks
open_chunks-count ext sizes tagfile zero cur files l f sound h = h
open_chunks-count ext sizes tagfile (suc n) cur files l f sound h =
    let a = ext cur (sizes cur) in
    let o = open_out a l in
    let opens = open_out-Opens f a l in
    let e = opens.same_file in
    let c = opens.counted in
    let all = count-append f (pointee tagfile) (pointees files) in
    elim (Bool-cases o.accept) [
      | inl accepted ↦
          let back = opens.accepted accepted in
          let more = pointees-append f files o.file in
          let all' = count-append f (pointee tagfile) (pointees (files ++ o.file ∷ [])) in
          let same : count f (pointee o.file) ≡ count f (pointee a.file) = rw e refl in
          rw (accepted, open_chunks)
            (open_chunks-count ext sizes tagfile n (cur + 1) (files ++ o.file ∷ []) o.ledger f sound
              (omega arith))
      | inr refused ↦
          let nothing : a.file ≡ none = sound_refused a l (sound cur (sizes cur)) refused in
          let back = opens.refused refused in
          let l1 = put_file tagfile o.ledger in
          let l2 = put_file o.file l1 in
          let p1 = put_file-count f tagfile o.ledger in
          let p2 = put_file-count f o.file l1 in
          let p3 = put_files-count f files l2 in
          let none_a : count f (pointee a.file) ≡ 0 = rw nothing refl in
          let none_o : count f (pointee o.file) ≡ 0 = rw e none_a in
          let kept : count f (put_files files l2).handed_out ≡ count f o.ledger.handed_out =
            ap (count f) (p3.1 ∙ p2.1 ∙ p1.1) in
          rw (refused, open_chunks) (omega (arith, p1.0, p2.0, p3.0))
    ]

schedule_dump-count :
    (s_internal s_external : ℕ) (extfile : Option ℕ) (written_total current_file : ℕ)
    (r : DumpRequest) (tagfile : Option ℕ) (p : Ledger × Option (List (Option ℕ))) (f : ℕ)
    → count f p.0.handed_out ≡ count f p.0.put_back + count f (owned tagfile p.1)
    → let s = schedule_dump s_internal s_external extfile written_total current_file r tagfile p in
      count f s.0.handed_out ≡ count f s.0.put_back + count f (dump_files s.1)
unfolding schedule_dump dump_operation
schedule_dump-count s_internal s_external extfile written_total current_file r tagfile (l, none) f
      h =
    h
schedule_dump-count s_internal s_external extfile written_total current_file r tagfile
      (l, some files) f h =
    let p1 = put_file-count f tagfile l in
    let p2 = put_files-count f files (put_file tagfile l) in
    let all = count-append f (pointee tagfile) (pointees files) in
    let same : count f (put_files files (put_file tagfile l)).handed_out ≡ count f l.handed_out =
      ap (count f) (p2.1 ∙ p1.1) in
    elim (Bool-cases r.scheduled) [
      | inl go_on ↦ rw (go_on, schedule_dump) h
      | inr stop ↦ rw (stop, schedule_dump) (omega (arith, p1.0, p2.0))
    ]

-- Where every file that DMP is handed for a chunk exists and is open, DMP puts back every file that it was
-- handed, once, if it schedules no dump; and if it does, what it was handed are the files of the dump,
-- and none is put back.
pub dmp-IsBalanced :
    (s_internal s_external : ℕ) (extfile : Option ℕ) (written_total current_file : ℕ)
    (r : DumpRequest) (l l' : Ledger) (op : Option DumpOperation)
    → ((cur size : ℕ) → IsSound (r.ext cur size))
    → IsBalanced l []
    → dmp s_internal s_external extfile written_total current_file r l ≡ returns (l', op)
    → IsBalanced l' (dump_files op)
unfolding dmp
dmp-IsBalanced s_internal s_external extfile written_total current_file r l l' op sound h e f =
    let start = h f in
    let i = open_in r.tag l in
    let opens = open_in-Opens f r.tag l in
    let same = opens.same_file in
    let counted = opens.counted in
    let accepted = opens.accepted in
    let refused = opens.refused in
    let back = put_file-count f i.file i.ledger in
    let n = num_chunks r.size r.chunk_size in
    let sizes = this_chunk_size n r.size r.chunk_size in
    let p = open_chunks r.ext sizes i.file n 0 [] i.ledger in
    let s : Ledger × Option DumpOperation =
      schedule_dump s_internal s_external extfile written_total current_file r i.file p in
    let chunks =
      λ (q : count f i.ledger.handed_out
          ≡ count f i.ledger.put_back + count f (pointee i.file ++ [])).
        schedule_dump-count s_internal s_external extfile written_total current_file r i.file p f
          (open_chunks-count r.ext sizes i.file n 0 [] i.ledger f sound q) in
    let nil = count-append f (pointee i.file) [] in ground arith
