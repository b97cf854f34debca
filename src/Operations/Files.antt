-- ===== src/Operations/Files.antt =====
-- The file calls of DROS2/Operations/CopyOperation.h and DumpOperation.h. The operating system's are
-- parameters, on a state `W` of the whole machine; `File` and `Storage::putFile` are DROS2/System/File.h
-- and Storage.cpp. A pointer to a `File` or a `Storage` is its address.
pub mod Release
pub mod Disk
use data_recorder.Base.{
  ℕ, ◌+◌, ◌≤◌, ◌<◌, ◌≡◌, ◌≢◌, Bool, false, Option, none, some, List, [], ◌∷◌, ◌++◌, ◌==◌,
  if◌then◌else◌, length, take, drop,
}
use data_recorder.Streaming.Recorder.{WriteResult, wrote, failed}

-- What `read` returns: the bytes in the buffer, or -1 with `errno`.
pub data ReadResult : Type 0 where
  got : List ℕ → ReadResult
  read_failed : ℕ → ReadResult

-- The calls on open files. `poll` reads the thread's flag `interrupted`, which other threads set;
-- `lseek` is from the start, and returns -1 or the new position.
pub record System (W : Type 0) : Type 0 where
  pub poll : W → W × Bool
  pub lseek : W → ℕ → ℕ → W × Option ℕ
  pub read : W → ℕ → ℕ → W × ReadResult
  pub write : W → ℕ → List ℕ → W × WriteResult

-- What POSIX says of the calls. `input` is the content of a file, `position` its offset, and `output`
-- all that was written through its descriptor, in order.
pub record IsPosix {W : Type 0} (s : System W) : Type 0 where
  pub input : W → ℕ → List ℕ
  pub position : W → ℕ → ℕ
  pub output : W → ℕ → List ℕ
  pub input-poll : (w : W) (f : ℕ) → input (s.poll w).0 f ≡ input w f
  pub output-poll : (w : W) (f : ℕ) → output (s.poll w).0 f ≡ output w f
  pub input-lseek : (w : W) (g o f : ℕ) → input (s.lseek w g o).0 f ≡ input w f
  pub output-lseek : (w : W) (g o f : ℕ) → output (s.lseek w g o).0 f ≡ output w f
  pub position-lseek :
      (w : W) (f o p : ℕ) → (s.lseek w f o).1 ≡ some p → position (s.lseek w f o).0 f ≡ p
  pub input-read : (w : W) (g c f : ℕ) → input (s.read w g c).0 f ≡ input w f
  pub output-read : (w : W) (g c f : ℕ) → output (s.read w g c).0 f ≡ output w f
  pub read-got :
      (w : W) (f c : ℕ) (bytes : List ℕ)
      → (s.read w f c).1 ≡ got bytes
      → (length bytes ≤ c) × (bytes ≡ take (length bytes) (drop (position w f) (input w f)))
  pub input-write :
      (w : W) (g : ℕ) (bytes : List ℕ) (f : ℕ) → f ≢ g → input (s.write w g bytes).0 f ≡ input w f
  pub write-wrote :
      (w : W) (f n : ℕ) (bytes : List ℕ)
      → (s.write w f bytes).1 ≡ wrote n
      → (n ≤ length bytes) × (output (s.write w f bytes).0 f ≡ output w f ++ take n bytes)
  pub write-failed :
      (w : W) (f e : ℕ) (bytes : List ℕ)
      → (s.write w f bytes).1 ≡ failed e
      → output (s.write w f bytes).0 f ≡ output w f
  pub output-write_other :
      (w : W) (g : ℕ) (bytes : List ℕ) (f : ℕ) → f ≢ g → output (s.write w g bytes).0 f ≡ output w f

-- The open files, and those that `putFile` has deleted, oldest first.
pub record Files : Type 0 where
  pub is_open : ℕ → Bool
  pub put_back : List ℕ

-- `File::close`
unfoldable pub close : ℕ → Files → Files
close f fs = record fs { is_open = λ g. if g == f then false else fs.is_open g }

-- `Storage::putFile`, without the attribute of a file that is still open.
unfoldable pub put_file : Option ℕ → Files → Files
unfolding close
put_file none fs = fs
put_file (some f) fs =
    let fs' = if fs.is_open f then close f fs else fs in
    record fs' { put_back = fs'.put_back ++ f ∷ [] }

-- The two lines of the clean-up for one file: `if (f && f->isOpen()) f->close();` and
-- `if (s && f) s->putFile(f);`.
unfoldable pub clean_up : Option ℕ → Option ℕ → Files → Files
unfolding close
clean_up s none fs = fs
clean_up s (some f) fs =
    let fs' = if fs.is_open f then close f fs else fs in
    elim s [ none ↦ fs' | some storage ↦ put_file (some f) fs' ]
