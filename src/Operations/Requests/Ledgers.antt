-- ===== src/Operations/Requests/Ledgers.antt =====
-- Which of the files that a command was handed it has put back when it responds.
use data_recorder.Base.{
  ℕ, suc, ◌+◌, ◌≡◌, refl, inl, inr, true, false, Option, none, some, List, [], ◌∷◌, ◌++◌, ◌==◌,
  if◌then◌else◌, arith, Option-cases,
}
use data_recorder.Operations.Files.Release.{pointee}
use data_recorder.Operations.Copy.{CopyOperation, copy_operation}
use data_recorder.Operations.Requests.{
  Answer, Ledger, hand_out, put_file, Opened, open_in, open_out, CopyRequest, cpy,
}

-- How often a pointer stands in a list.
abbrev pub count : ℕ → List ℕ → ℕ
count f [] = 0
count f (g ∷ l) = if g == f then suc (count f l) else count f l

pub count-append : (f : ℕ) (l r : List ℕ) → count f (l ++ r) ≡ count f l + count f r
count-append f [] r = omega arith
count-append f (g ∷ l) r = let ih = count-append f l r in ground arith

-- The files that a copy has.
abbrev pub copy_files : Option CopyOperation → List ℕ
copy_files none = []
copy_files (some op) = pointee op.tagfile ++ pointee op.extfile

-- Of the files handed out and not put back, `kept` are all, each once.
abbrev pub IsBalanced : Ledger → List ℕ → Type 0
IsBalanced l kept = (f : ℕ) → count f l.handed_out ≡ count f l.put_back + count f kept

pub put_file-count :
    (f : ℕ) (p : Option ℕ) (l : Ledger)
    → (count f (put_file p l).put_back ≡ count f l.put_back + count f (pointee p))
      × ((put_file p l).handed_out ≡ l.handed_out)
unfolding put_file
put_file-count f none l = (omega arith, refl)
put_file-count f (some g) l = (count-append f l.put_back (g ∷ []), refl)

hand_out-count :
    (f : ℕ) (p : Option ℕ) (l : Ledger)
    → (count f (hand_out p l).handed_out ≡ count f l.handed_out + count f (pointee p))
      × ((hand_out p l).put_back ≡ l.put_back)
unfolding hand_out
hand_out-count f none l = (omega arith, refl)
hand_out-count f (some g) l = (count-append f l.handed_out (g ∷ []), refl)

-- What opening a file does to the counts: it is handed out, and put back where it is refused.
pub record Opens (f : ℕ) (a : Answer) (l : Ledger) (o : Opened) : Type 0 where
  pub same_file : o.file ≡ a.file
  pub counted : count f o.ledger.handed_out ≡ count f l.handed_out + count f (pointee a.file)
  pub accepted : o.accept ≡ true → count f o.ledger.put_back ≡ count f l.put_back
  pub refused :
      o.accept ≡ false → count f o.ledger.put_back ≡ count f l.put_back + count f (pointee a.file)

pub open_in-Opens : (f : ℕ) (a : Answer) (l : Ledger) → Opens f a l (open_in a l)
unfolding open_in
open_in-Opens f a l =
    let l' = hand_out a.file l in
    let out = (hand_out-count f a.file l).0 in
    let same = (hand_out-count f a.file l).1 in
    let back = put_file-count f a.file l' in
    elim (Option-cases a.file) [
      | inl e ↦ record {
        same_file = ground arith;
        counted = ground arith;
        accepted = λ h. ground arith;
        refused = λ h. ground arith;
      }
      | inr (g, e) ↦ record {
        same_file = ground arith;
        counted = ground arith;
        accepted = λ h. ground arith;
        refused = λ h. ground arith;
      }
    ]

pub open_out-Opens : (f : ℕ) (a : Answer) (l : Ledger) → Opens f a l (open_out a l)
unfolding open_out
open_out-Opens f a l =
    let l' = hand_out a.file l in
    let out = (hand_out-count f a.file l).0 in
    let same = (hand_out-count f a.file l).1 in
    let back = put_file-count f a.file l' in
    elim (Option-cases a.file) [
      | inl e ↦ record {
        same_file = ground arith;
        counted = ground arith;
        accepted = λ h. ground arith;
        refused = λ h. ground arith;
      }
      | inr (g, e) ↦ record {
        same_file = ground arith;
        counted = ground arith;
        accepted = λ h. ground arith;
        refused = λ h. ground arith;
      }
    ]

-- CPY puts back every file that it was handed, once, where it schedules no copy; and where it does, what
-- it was handed are the two files of the copy, and none is put back.
pub cpy-IsBalanced :
    (s_internal s_external : ℕ) (r : CopyRequest) (l : Ledger)
    → IsBalanced l []
    → IsBalanced (cpy s_internal s_external r l).0 (copy_files (cpy s_internal s_external r l).1)
unfolding cpy copy_operation
cpy-IsBalanced s_internal s_external r l h f =
    let start = h f in
    let i = open_in r.tag l in
    let o = open_out r.ext i.ledger in
    let i_opens = open_in-Opens f r.tag l in
    let o_opens = open_out-Opens f r.ext i.ledger in
    let i_back = put_file-count f i.file i.ledger in
    let o_back = put_file-count f i.file o.ledger in
    let both = put_file-count f i.file (put_file o.file o.ledger) in
    let ext_back = put_file-count f o.file o.ledger in
    let files = count-append f (pointee i.file) (pointee o.file) in
    let e1 = i_opens.same_file in
    let e2 = o_opens.same_file in
    let c1 = i_opens.counted in
    let c2 = o_opens.counted in
    let a1 = i_opens.accepted in
    let a2 = o_opens.accepted in
    let r1 = i_opens.refused in let r2 = o_opens.refused in ground arith
