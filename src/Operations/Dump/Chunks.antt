-- ===== src/Operations/Dump/Chunks.antt =====
-- The chunks of a dump: how long each is, and that they make up the piece of the tag file.
use data_recorder.Base.{
  ℕ, zero, suc, ◌+◌, ◌-◌, ◌*◌, ◌≤◌, ◌<◌, ◌^◌, ◌≡◌, refl, sym, ap, ◌∙◌, true, ◌==◌, ==_refl, List,
  [], ◌∷◌, ◌++◌, arith, word, sub_word, length, take, drop,
}
use data_recorder.Operations.Transfer.Slices.{append_nil, take-nil}
use data_recorder.Operations.Dump.{DumpOperation, size_for_this_chunk}

-- A list in so many parts: each is of `k` elements, but the last is what is left.
abbrev pub parts {ℓ} : {A : Type ℓ} → ℕ → ℕ → List A → List (List A)
parts k zero xs = []
parts k (suc zero) xs = xs ∷ []
parts k (suc (suc n)) xs = take k xs ∷ parts k (suc n) (drop k xs)

module _ {ℓ} {A : Type ℓ} where
  abbrev pub concat : List (List A) → List A
  concat [] = []
  concat (xs ∷ xss) = xs ++ concat xss

  take-append-drop' : (k : ℕ) (xs : List A) → take k xs ++ drop k xs ≡ xs
  take-append-drop' zero xs = refl
  take-append-drop' (suc k) [] = refl
  take-append-drop' (suc k) (x ∷ xs) = ap (λ l. x ∷ l) (take-append-drop' k xs)

  -- The parts make up the list.
  pub concat-parts : (k n : ℕ) (xs : List A) → concat (parts k (suc n) xs) ≡ xs
  concat-parts k zero xs = append_nil xs
  concat-parts k (suc n) xs =
      ap (λ l. take k xs ++ l) (concat-parts k n (drop k xs)) ∙ take-append-drop' k xs

  pub drop-take : (k n : ℕ) (xs : List A) → k ≤ n → drop k (take n xs) ≡ take (n - k) (drop k xs)
  drop-take zero n xs h = ap (λ m. take m xs) (omega arith)
  drop-take (suc k) zero xs h = absurd (omega arith)
  drop-take (suc k) (suc n) [] h = sym (take-nil (suc n - suc k))
  drop-take (suc k) (suc n) (x ∷ xs) h =
      let e : suc n - suc k ≡ n - k = omega arith in rw e (drop-take k n xs (omega arith))

-- What is left for the last file, and a chunk for each other one.
abbrev pub share : {A : Type 0} → ℕ → ℕ → List A → ℕ
share k remaining [] = remaining
share k remaining (file ∷ files) = k

-- So much of the dump is left for one file and the others, which come after it.
pub record IsPlan {A : Type 0} (num_files : ℕ) (files : List A) (op : DumpOperation) (remaining : ℕ)
    : Type 0 where
  pub numbered : op.current_file + suc (length files) ≡ num_files
  pub countable : num_files < 2 ^ 64
  pub sum : op.current_file * op.chunk_size + remaining ≡ op.size
  pub sized : op.size < 2 ^ 64
  pub enough : length files * op.chunk_size ≤ remaining

pub size_for_this_chunk_lem :
    {A : Type 0} (num_files : ℕ) (files : List A) (op : DumpOperation) (remaining : ℕ)
    → IsPlan num_files files op remaining
    → size_for_this_chunk num_files op ≡ share op.chunk_size remaining files
unfolding size_for_this_chunk
size_for_this_chunk_lem num_files [] op remaining p =
    let e = p.numbered in
    let small = p.countable in
    let sum = p.sum in
    let sized = p.sized in
    let last : sub_word num_files 1 ≡ op.current_file = omega arith in
    let there : (op.current_file == op.current_file) ≡ true = ==_refl op.current_file in
    let left : sub_word op.size (word (op.current_file * op.chunk_size)) ≡ remaining =
      omega arith in
    rw (last, there, left, size_for_this_chunk) refl
size_for_this_chunk_lem num_files (file ∷ files) op remaining p =
    let e = p.numbered in let small = p.countable in ground arith

suc_mul : (n k : ℕ) → suc n * k ≡ k + n * k
suc_mul n k = omega arith

pub share_le :
    {A : Type 0} (num_files : ℕ) (files : List A) (op : DumpOperation) (remaining : ℕ)
    → IsPlan num_files files op remaining
    → share op.chunk_size remaining files ≤ remaining
share_le num_files [] op remaining p = omega arith
share_le num_files (file ∷ files) op remaining p =
    let h = p.enough in let e = suc_mul (length files) op.chunk_size in omega arith

pub next-IsPlan :
    {A : Type 0} (num_files : ℕ) (g : A) (files : List A) (op op' : DumpOperation) (remaining : ℕ)
    → IsPlan num_files (g ∷ files) op remaining
    → op'.current_file ≡ word (op.current_file + 1)
    → op'.chunk_size ≡ op.chunk_size
    → op'.size ≡ op.size
    → IsPlan num_files files op' (remaining - op.chunk_size)
next-IsPlan num_files g files op op' remaining p e1 e2 e3 =
    let e = p.numbered in
    let small = p.countable in
    let sum = p.sum in
    let sized = p.sized in
    let enough = p.enough in
    let m = suc_mul (length files) op.chunk_size in
    let m' = suc_mul op.current_file op.chunk_size in
    let count : op'.current_file ≡ suc op.current_file = omega arith in
    record {
      numbered = omega arith;
      countable = small;
      sum = rw (count, e2, e3) (omega arith);
      sized = rw e3 sized;
      enough = rw e2 (omega arith);
    }
