-- ===== src/Operations/Files/Disk.antt =====
-- Files as lists of bytes, on which `read` is refused with EAGAIN a given number of times, and all else succeeds. Models
-- no code: the theorems on copies and dumps hold of it.
use data_recorder.Base.{
  ℕ, zero, suc, ◌≤◌, ◌<◌, ◌≡◌, ◌≢◌, refl, sym, ap, subst, ◌∙◌, ◌⊎◌, inl, inr, false, some, List, [],
  ◌∷◌, ◌++◌, ◌==◌, if◌then◌else◌, length, take, drop, arith, ==_refl,
}
use data_recorder.Streaming.Recorder.{wrote, failed}
use data_recorder.Operations.Files.{System, ReadResult, got, read_failed, IsPosix}
use data_recorder.Operations.Transfer.Ends.{IsPatient}
use data_recorder.Operations.Transfer.Calm.{IsCalm}

pub record Disk : Type 0 where
  pub contents : ℕ → List ℕ
  pub place : ℕ → ℕ
  pub written : ℕ → List ℕ
  pub stalls : ℕ

abbrev pub set : {A : Type 0} → ℕ → A → (ℕ → A) → ℕ → A
set f x g n = if n == f then x else g n

abbrev disk_read : ℕ → Disk → ℕ → ℕ → Disk × ReadResult
disk_read (suc n) d f c = (record d { stalls = n }, read_failed 11)
disk_read zero d f c = (d, got (take c (drop (d.place f) (d.contents f))))

abbrev pub disk : System Disk
disk = record {
  poll = λ d. (d, false);
  lseek = λ d f o. (record d { place = set f o d.place }, some o);
  read = λ d f c. disk_read d.stalls d f c;
  write = λ d f bytes.
      (record d { written = set f (d.written f ++ bytes) d.written }, wrote (length bytes));
}

take-length : {A : Type 0} (xs : List A) → take (length xs) xs ≡ xs
take-length [] = refl
take-length (x ∷ xs) = ap (λ l. x ∷ l) (take-length xs)

length-take : {A : Type 0} (n : ℕ) (xs : List A) → length (take n xs) ≤ n
length-take zero xs = omega arith
length-take (suc n) [] = omega arith
length-take (suc n) (x ∷ xs) = let ih = length-take n xs in omega arith

take-length-take : {A : Type 0} (n : ℕ) (xs : List A) → take n xs ≡ take (length (take n xs)) xs
take-length-take zero xs = refl
take-length-take (suc n) [] = refl
take-length-take (suc n) (x ∷ xs) = ap (λ l. x ∷ l) (take-length-take n xs)

pub disk_read-contents :
    (n : ℕ) (d : Disk) (g c f : ℕ) → (disk_read n d g c).0.contents f ≡ d.contents f
disk_read-contents zero d g c f = refl
disk_read-contents (suc n) d g c f = refl

pub disk_read-written :
    (n : ℕ) (d : Disk) (g c f : ℕ) → (disk_read n d g c).0.written f ≡ d.written f
disk_read-written zero d g c f = refl
disk_read-written (suc n) d g c f = refl

pub disk_read-got :
    (n : ℕ) (d : Disk) (f c : ℕ) (bytes : List ℕ)
    → (disk_read n d f c).1 ≡ got bytes
    → (length bytes ≤ c) × (bytes ≡ take (length bytes) (drop (d.place f) (d.contents f)))
disk_read-got zero d f c bytes e =
    let xs = drop (d.place f) (d.contents f) in
    let same : take c xs ≡ bytes = cc in
    subst (λ (b : List ℕ). (length b ≤ c) × (b ≡ take (length b) xs)) same
      (length-take c xs, take-length-take c xs)
disk_read-got (suc n) d f c bytes e = absurd (cc)

pub set_same : {A : Type 0} (f : ℕ) (x : A) (g : ℕ → A) → set f x g f ≡ x
set_same f x g = rw (==_refl f) refl

pub set_other : {A : Type 0} (f : ℕ) (x : A) (g : ℕ → A) (n : ℕ) → n ≢ f → set f x g n ≡ g n
set_other f x g n h = let e : (n == f) ≡ false = ground (arith, h) in rw e refl

pub wrote_all :
    (d : Disk) (f n : ℕ) (bytes : List ℕ)
    → wrote (length bytes) ≡ wrote n
    → (n ≤ length bytes) × (set f (d.written f ++ bytes) d.written f ≡ d.written f ++ take n bytes)
wrote_all d f n bytes h =
    let e : length bytes ≡ n = cc in
    (
      omega arith,
      set_same f (d.written f ++ bytes) d.written
          ∙ ap (λ b. d.written f ++ b) (sym (rw (sym e) (take-length bytes))),
    )

pub wrote_failed : (n e : ℕ) → wrote n ≢ failed e
wrote_failed n e h = cc

pub sought : (d : Disk) (f o p : ℕ) → some o ≡ some p → set f o d.place f ≡ p
sought d f o p e = let q : o ≡ p = cc in set_same f o d.place ∙ q

abbrev pub disk_posix : IsPosix disk
disk_posix = record {
  input = λ d. d.contents;
  position = λ d. d.place;
  output = λ d. d.written;
  input-poll = λ d f. refl;
  output-poll = λ d f. refl;
  input-lseek = λ d g o f. refl;
  output-lseek = λ d g o f. refl;
  position-lseek = λ d f o p e. sought d f o p e;
  input-read = λ d g c f. disk_read-contents d.stalls d g c f;
  output-read = λ d g c f. disk_read-written d.stalls d g c f;
  read-got = λ d f c bytes e. disk_read-got d.stalls d f c bytes e;
  input-write = λ d g bytes f h. refl;
  write-wrote = λ d f n bytes e. wrote_all d f n bytes e;
  write-failed = λ d f e bytes q. absurd (wrote_failed (length bytes) e q);
  output-write_other = λ d g bytes f h. set_other g (d.written g ++ bytes) d.written f h;
}

some_left : (p : ℕ) (xs : List ℕ) (c : ℕ) → 0 < c → p < length xs → take c (drop p xs) ≢ []
some_left p [] c pos h e = omega arith
some_left zero (x ∷ xs) zero pos h e = omega arith
some_left zero (x ∷ xs) (suc c) pos h e = cc
some_left (suc p) (x ∷ xs) c pos h e = some_left p xs c pos (omega arith) e

pub disk_read-stalls :
    (n : ℕ) (d : Disk) (g c : ℕ) → d.stalls ≡ n → (disk_read n d g c).0.stalls ≤ d.stalls
disk_read-stalls zero d g c e = omega arith
disk_read-stalls (suc n) d g c e = omega arith

pub disk_read-idle :
    (n : ℕ) (d : Disk) (f c : ℕ)
    → d.stalls ≡ n
    → 0 < c
    → d.place f < length (d.contents f)
    → ((disk_read n d f c).1 ≡ got []) ⊎ ((disk_read n d f c).1 ≡ read_failed 11)
    → (disk_read n d f c).0.stalls < d.stalls
disk_read-idle (suc n) d f c e pos more h = omega arith
disk_read-idle zero d f c e pos more (inl q) =
    let r : take c (drop (d.place f) (d.contents f)) ≡ [] = cc in
    absurd (some_left (d.place f) (d.contents f) c pos more r)
disk_read-idle zero d f c e pos more (inr q) = absurd (cc)

pub write_some :
    (b : ℕ) (bytes : List ℕ)
    → (wrote (suc (length bytes)) ≡ wrote 0) ⊎ (wrote (suc (length bytes)) ≡ failed 11)
    → ⊥
write_some b bytes (inl e) = let q : suc (length bytes) ≡ 0 = cc in omega arith
write_some b bytes (inr e) = cc

abbrev pub disk_patient : IsPatient disk disk_posix
disk_patient = record {
  patience = λ d. d.stalls;
  patience-poll = λ d. omega arith;
  patience-lseek = λ d f o. omega arith;
  patience-read = λ d f c. disk_read-stalls d.stalls d f c refl;
  patience-write = λ d f bytes. omega arith;
  read_idle = λ d f c pos more h. disk_read-idle d.stalls d f c refl pos more h;
  write_idle = λ d f b bytes h. absurd (write_some b bytes h);
}

pub disk_read-calm : (n : ℕ) (d : Disk) (f c e : ℕ) → (disk_read n d f c).1 ≡ read_failed e → e ≡ 11
disk_read-calm zero d f c e h = absurd (cc)
disk_read-calm (suc n) d f c e h = cc

abbrev pub disk_calm : IsCalm disk
disk_calm = record {
  not_interrupted = λ d. refl;
  read_fails = λ d f c e h. disk_read-calm d.stalls d f c e h;
  write_fails = λ d f e bytes h. absurd (wrote_failed (length bytes) e h);
}
