-- ===== src/Operations/Requests/Leaks.antt =====
-- Paths on which GET and DMP put a file back not once, but never or twice.
use data_recorder.Base.{
  ℕ, zero, suc, ◌+◌, ◌*◌, ◌≤◌, ◌<◌, ◌^◌, ◌≡◌, ◌≢◌, refl, ap, subst, ◌∙◌, ◌⊎◌, inl, inr, true, false,
  Option, none, some, [], ◌==◌, if◌then◌else◌, not, ◌&&◌, arith, returns, word, ltb,
}
use data_recorder.Operations.Files.Release.{pointee}
use data_recorder.Operations.Requests.{
  Answer, Ledger, put_file, open_in, open_out, put_files, open_chunks, num_chunks, this_chunk_size,
  DumpRequest, schedule_dump, dmp, GetRequest, get,
}
use data_recorder.Operations.Requests.Ledgers.{
  count, IsBalanced, put_file-count, open_in-Opens, open_out-Opens,
}
use data_recorder.Operations.Requests.Plans.{open_chunks_stop, num_chunks_lem}

-- GET puts the tag file back if it sends the bytes. If it has opened the file and does not send them,
-- because the request exceeds the file or a call fails, it puts the file back never.
pub get_lem :
    (rfs_data : ℕ) (r : GetRequest) (l : Ledger)
    → IsBalanced l []
    → (open_in r.tag l).accept ≡ true
    → r.idle ≡ true
    → r.well_formed ≡ true
    → r.size ≤ rfs_data
    → IsBalanced (get rfs_data r l).0 (if (get rfs_data r l).1 then [] else pointee r.tag.file)
unfolding get
get_lem rfs_data r l h opened idle formed small f =
    let start = h f in
    let o = open_in r.tag l in
    let opens = open_in-Opens f r.tag l in
    let same = opens.same_file in
    let counted = opens.counted in
    let back = opens.accepted opened in let put = put_file-count f o.file o.ledger in ground arith

-- A dump request that reaches the creation of the files.
pub record IsGranted (r : DumpRequest) (l : Ledger) : Type 0 where
  pub device : r.external ≡ true
  pub idle : r.idle ≡ true
  pub formed : r.well_formed ≡ true
  pub opened : (open_in r.tag l).accept ≡ true
  pub inside : r.offset + r.size ≤ r.fsize
  pub room : r.size ≤ r.freespace
  pub small : r.fsize < 2 ^ 63
  pub chunks : 0 < r.chunk_size
  pub some_bytes : 0 < r.size

ℕ-cases : (n : ℕ) → (n ≡ 0) ⊎ ((k : ℕ) × (n ≡ suc k))
ℕ-cases zero = inl refl
ℕ-cases (suc k) = inr (k, refl)

with_bounds :
    (r : DumpRequest) (l : Ledger)
    → IsGranted r l
    → (ltb r.fsize (word (r.offset + r.size)) ≡ false) × (ltb r.freespace r.size ≡ false)
with_bounds r l g =
    let a = g.inside in let b = g.room in let c = g.small in (ground arith, ground arith)

some_chunks :
    (size chunk_size : ℕ)
    → 0 < chunk_size
    → 0 < size
    → size < 2 ^ 63
    → (k : ℕ) × (num_chunks size chunk_size ≡ suc k)
some_chunks size chunk_size p q small =
    let plan = num_chunks_lem size chunk_size p small in
    elim (ℕ-cases (num_chunks size chunk_size)) [
      | inl e ↦ absurd (
          let z : 0 * chunk_size ≡ 0 = omega arith in
          let c = subst (λ n. size ≤ n * chunk_size) e plan.0 in omega arith)
      | inr (k, e) ↦ (k, e)
    ]

granted :
    (s_internal s_external : ℕ) (extfile : Option ℕ) (written_total current_file : ℕ)
    (r : DumpRequest) (l : Ledger)
    → IsGranted r l
    → let i = open_in r.tag l in
      let n = num_chunks r.size r.chunk_size in
      dmp s_internal s_external extfile written_total current_file r l
      ≡ returns (
          schedule_dump s_internal s_external extfile written_total current_file r i.file
            (open_chunks r.ext (this_chunk_size n r.size r.chunk_size) i.file n 0 [] i.ledger))
unfolding dmp
granted s_internal s_external extfile written_total current_file r l g =
    let (a, b) = with_bounds r l g in
    let c : (r.chunk_size == 0) ≡ false = let d = g.chunks in ground arith in
    let e : (r.have_alt_external && not true) ≡ false = ground arith in
    rw (g.device, e, g.idle, g.formed, g.opened, a, b, c) refl

missing_refused : (a : Answer) (l : Ledger) → a.exists ≡ false → (open_out a l).accept ≡ false
unfolding open_out
missing_refused a l e = ground arith

-- If the storage hands out the file of the first chunk, but the file does not exist, then DMP puts it back
-- twice: the second time the pointer is of a file that is already deleted.
pub dmp_puts_twice :
    (s_internal s_external : ℕ) (extfile : Option ℕ) (written_total current_file : ℕ)
    (r : DumpRequest) (l : Ledger) (t f : ℕ)
    → IsGranted r l
    → r.tag.file ≡ some t
    → t ≢ f
    → ((size : ℕ) → ((r.ext 0 size).file ≡ some f) × ((r.ext 0 size).exists ≡ false))
    → (l' : Ledger) × (dmp s_internal s_external extfile written_total current_file r l
        ≡ returns (l', none))
      × (count f l'.handed_out ≡ count f l.handed_out + 1)
      × (count f l'.put_back ≡ count f l.put_back + 2)
unfolding schedule_dump put_files
dmp_puts_twice s_internal s_external extfile written_total current_file r l t f g tag apart bad =
    let i = open_in r.tag l in
    let (k, some_n) =
      some_chunks r.size r.chunk_size g.chunks g.some_bytes
        (let a = g.inside in let b = g.small in omega arith) in
    let sizes = this_chunk_size (num_chunks r.size r.chunk_size) r.size r.chunk_size in
    let a = r.ext 0 (sizes 0) in
    let o = open_out a i.ledger in
    let (is_f, missing) = bad (sizes 0) in
    let refused = missing_refused a i.ledger missing in
    let l1 = put_file i.file o.ledger in
    let l2 = put_file o.file l1 in
    let i_opens = open_in-Opens f r.tag l in
    let o_opens = open_out-Opens f a i.ledger in
    let one : count f (pointee a.file) ≡ 1 = rw is_f (ground arith) in
    let other : count f (pointee r.tag.file) ≡ 0 = rw tag (ground arith) in
    let one' : count f (pointee o.file) ≡ 1 = rw o_opens.same_file one in
    let other' : count f (pointee i.file) ≡ 0 = rw i_opens.same_file other in
    let p1 = put_file-count f i.file o.ledger in
    let p2 = put_file-count f o.file l1 in
    let kept : count f l2.handed_out ≡ count f o.ledger.handed_out = ap (count f) (p2.1 ∙ p1.1) in
    let c1 = i_opens.counted in
    let c2 = o_opens.counted in
    let b1 = i_opens.accepted g.opened in
    let b2 = o_opens.refused refused in
    (
      l2,
      granted s_internal s_external extfile written_total current_file r l g
          ∙ ap
              (λ n. returns (
                schedule_dump s_internal s_external extfile written_total current_file r i.file
                  (open_chunks r.ext sizes i.file n 0 [] i.ledger)))
              some_n
          ∙ ap
              (λ p.
                returns (
                  schedule_dump s_internal s_external extfile written_total current_file r i.file
                    p))
              (open_chunks_stop r.ext sizes i.file k 0 [] i.ledger refused),
      omega arith,
      omega (arith, p1.0, p2.0),
    )
