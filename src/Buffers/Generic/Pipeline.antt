-- ===== src/Buffers/Generic/Pipeline.antt =====
-- The producer and the stage consumers of the unit tests in DROS2/Buffers/GenericBuffer.cpp
-- (`__GB_unitTest_Producer`, `__GB_unitTest_StageN_Consumer`): the loop bodies, in any interleaving.
-- A turn that finds no slot or no object changes nothing, as in the source. An access outside the memory
-- of `buf` is `fatal`; an object fills its slot.
pub mod Delivers
pub mod Order
use native.Mathlib.Decide.{dec_lt}
use native.Mathlib.Nat.{mul-div_cancel_left}
use native.Mathlib.Numerals.{add-one}
use data_recorder.Base.{
  sym, ℕ, zero, suc, ◌+◌, ◌-◌, ◌*◌, ◌/◌, ◌%◌, ◌^◌, ◌≤◌, ◌<◌, ◌≡◌, ◌≢◌, ◌↔◌, ◌∙◌, refl, ap, arith,
  Bool, true, false, not, Option, none, some, if◌then◌else◌, ◌==◌, leb, ltb, word, Exit, returns,
  fatal, ◌>>=◌, List, [], ◌∷◌, ◌++◌, length, get_elem?, length-append, take, drop, take-append,
  take-suc, take-append-drop, length-take_of_le, get_elem?-append_left, get_elem?-append_end,
  get_elem?_of_lt,
}
use data_recorder.Buffers.Ring.{counters-ne}
use data_recorder.Buffers.Generic.{
  GenericBuffer, slot, is_inside, new, next_in, done_in, next_stage, done_stage,
}
use data_recorder.Buffers.Generic.Counters.{Counts, bump, next_in_lem, next_stage_lem, count_mono}
use data_recorder.Buffers.Generic.Steps.{advanced, new-Counts, done_in_lem, done_stage_lem}

-- The ring, the memory behind it by offset, what was put in, and what each stage has read.
pub record Pipe (A : Type 0) : Type 0 where
  pub ring : GenericBuffer
  pub cells : ℕ → Option A
  pub produced : List A
  pub read : ℕ → List A

-- One turn of the producer's loop with a value, or of a stage's loop.
pub data Turn (A : Type 0) : Type 0 where
  produce : A → Turn A
  consume : ℕ → Turn A

abbrev pub update : {B : Type 0} → (ℕ → B) → ℕ → B → ℕ → B
update f i v j = if j == i then v else f j

abbrev pub to_list : {A : Type 0} → Option A → List A
to_list none = []
to_list (some x) = x ∷ []

module _ {A : Type 0} where
  -- `*t = val` and `doneIn`, where `nextIn` has returned `found`.
  pub produce_at : Pipe A → A → Option ℕ → Exit (Pipe A)
  produce_at p x none = returns p
  produce_at p x (some ptr) = if not (is_inside p.ring ptr) then fatal else do
    ring' ← done_in p.ring ptr
    returns (record p {
      ring = ring';
      cells = update p.cells ptr (some x);
      produced = p.produced ++ x ∷ [];
    })

  -- The read of `*t` and `doneStage`, where `nextStage` has returned `found`.
  pub consume_at : Pipe A → ℕ → Option ℕ → Exit (Pipe A)
  consume_at p k none = returns p
  consume_at p k (some ptr) = if not (is_inside p.ring ptr) then fatal else do
    ring' ← done_stage p.ring k ptr
    returns (record p { ring = ring'; read = update p.read k (p.read k ++ to_list (p.cells ptr)) })

  pub turn : Pipe A → Turn A → Exit (Pipe A)
  turn p (produce x) = produce_at p x (next_in p.ring)
  turn p (consume k) = do found ← next_stage p.ring k; consume_at p k found

  pub run : Pipe A → List (Turn A) → Exit (Pipe A)
  run p [] = returns p
  run p (t ∷ ts) = turn p t >>= λ p'. run p' ts

  pub start : GenericBuffer → Pipe A
  start b = record { ring = b; cells = λ _. none; produced = []; read = λ _. [] }
