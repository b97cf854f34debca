-- ===== src/Operations/Files/Release.antt =====
-- What the clean-up of a copy and of a dump does to a file: it is closed, and put back.
use data_recorder.Base.{ℕ, ◌≡◌, ◌≢◌, sym, false, Option, none, some, List, [], ◌∷◌, ◌++◌, arith}
use data_recorder.Operations.Files.{Files, close, put_file, clean_up}
use data_recorder.Operations.Transfer.Slices.{append_nil}

-- The file that a pointer points at.
abbrev pub pointee : Option ℕ → List ℕ
pointee none = []
pointee (some f) = f ∷ []

pub clean_up-put_back :
    (storage : ℕ) (file : Option ℕ) (fs : Files)
    → (clean_up (some storage) file fs).put_back ≡ fs.put_back ++ pointee file
unfolding clean_up put_file close
clean_up-put_back storage none fs = sym (append_nil fs.put_back)
clean_up-put_back storage (some f) fs = ground arith

pub clean_up-closed :
    (s : Option ℕ) (f : ℕ) (fs : Files) → (clean_up s (some f) fs).is_open f ≡ false
unfolding clean_up put_file close
clean_up-closed none f fs = ground arith
clean_up-closed (some storage) f fs = ground arith

-- No file is opened.
pub clean_up-still_closed :
    (s file : Option ℕ) (f : ℕ) (fs : Files)
    → fs.is_open f ≡ false
    → (clean_up s file fs).is_open f ≡ false
unfolding clean_up put_file close
clean_up-still_closed s none f fs h = h
clean_up-still_closed none (some g) f fs h = ground arith
clean_up-still_closed (some storage) (some g) f fs h = ground arith

pub clean_up-others :
    (s : Option ℕ) (g f : ℕ) (fs : Files)
    → f ≢ g
    → (clean_up s (some g) fs).is_open f ≡ fs.is_open f
unfolding clean_up put_file close
clean_up-others none g f fs h = ground (arith, h)
clean_up-others (some storage) g f fs h = ground (arith, h)
