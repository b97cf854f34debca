-- ===== src/Buffers/Generic/Pipeline/Order.antt =====
-- Every stage of the pipeline reads what the producer has put in, in that order, whatever the
-- interleaving.

use data_recorder.Base.{
  sym, All, Option-cases, Bool-cases, inl, inr, ◌⊎◌, ℕ, suc, Bool, ◌+◌, ◌-◌, ◌*◌, ◌^◌, ◌≤◌, ◌<◌,
  ◌≡◌, ◌∙◌, refl, ap, arith, true, none, some, ltb, returns, List, [], ◌∷◌, ◌++◌, length, take,
  drop, take-append-drop, length-take_of_le,
}
use data_recorder.Buffers.Generic.{GenericBuffer, new, next_in, next_stage}
use data_recorder.Buffers.Generic.Counters.{Counts, bump, next_stage_lem}
use data_recorder.Buffers.Generic.Steps.{new-Counts}
use data_recorder.Buffers.Generic.Pipeline.{
  Pipe, Turn, produce, consume, produce_at, consume_at, turn, run, start,
}
use data_recorder.Buffers.Generic.Pipeline.Delivers.{
  Delivers, start-Delivers, passed_le, produce-Delivers, consume-Delivers,
}

next_stage-cases :
    {b : GenericBuffer} {count : ℕ → ℕ} (c : Counts b count) (k : ℕ)
    → k < b.num_stages
    → (next_stage b k ≡ returns none) ⊎ ((ptr : ℕ) × (next_stage b k ≡ returns (some ptr)))
next_stage-cases {count = count} c k h = elim (Bool-cases (ltb (count (suc k)) (count k))) [
  | inl e ↦ inr (_, rw e at (next_stage_lem c k h))
  | inr e ↦ inl (rw e at (next_stage_lem c k h))
]

module _ {A : Type 0} where
  -- A stage that exists.
  abbrev pub IsTurn : ℕ → Turn A → Type 0
  IsTurn stages (produce x) = Unit {0}
  IsTurn stages (consume k) = k < stages

  -- What a turn, or several, may lead to.
  record Continues (stages slots : ℕ) (p : Pipe A) : Type 0 where
    counts : ℕ → ℕ
    delivers : Delivers p counts
    same_stages : p.ring.num_stages ≡ stages
    same_slots : p.ring.obj_count ≡ slots

  consume_none : (p : Pipe A) (k : ℕ) → consume_at p k none ≡ returns p
  unfolding consume_at
  consume_none p k = refl

  turn-Continues :
      (stages slots : ℕ) (p : Pipe A) (t : Turn A)
      → Continues stages slots p
      → IsTurn stages t
      → (p' : Pipe A) × (turn p t ≡ returns p') × Continues stages slots p'
  unfolding turn produce_at
  turn-Continues stages slots p (produce x) v h = elim (Option-cases (next_in p.ring)) [
    | inl e ↦ (p, rw (e, produce_at), v)
    | inr (ptr, e) ↦
        let (p', ret, d, same) = produce-Delivers v.delivers x ptr e in
        (
          p',
          rw e ret,
          record {
            counts = bump v.counts 0;
            delivers = d;
            same_stages = same.0 ∙ v.same_stages;
            same_slots = same.1 ∙ v.same_slots;
          },
        )
  ]
  turn-Continues stages slots p (consume k) v h =
      let h' : k < p.ring.num_stages = omega (arith, v.same_stages) in
      elim (next_stage-cases v.delivers.counts k h') [
        | inl e ↦ (p, rw e (consume_none p k), v)
        | inr (ptr, e) ↦
            let (p', ret, d, same) = consume-Delivers v.delivers k ptr h' e in
            (
              p',
              rw e ret,
              record {
                counts = bump v.counts (suc k);
                delivers = d;
                same_stages = same.0 ∙ v.same_stages;
                same_slots = same.1 ∙ v.same_slots;
              },
            )
      ]

  run-Continues :
      (stages slots : ℕ) (p : Pipe A) (ts : List (Turn A))
      → Continues stages slots p
      → All (IsTurn stages) ts
      → (p' : Pipe A) × (run p ts ≡ returns p') × Continues stages slots p'
  unfolding run
  run-Continues stages slots p [] v h = (p, refl, v)
  run-Continues stages slots p (t ∷ ts) v h =
      let (p', ret, v') = turn-Continues stages slots p t v h.0 in
      let (q, ret', w) = run-Continues stages slots p' ts v' h.1 in (q, rw ret ret', w)

  start-Continues :
      {b : GenericBuffer} (stages slots : ℕ)
      → Counts b (λ _. 0)
      → b.num_stages ≡ stages
      → b.obj_count ≡ slots
      → Continues stages slots (start b)
  unfolding start
  start-Continues stages slots c e e' = record {
    counts = λ _. 0;
    delivers = start-Delivers c;
    same_stages = e;
    same_slots = e';
  }

  read_length :
      {stages slots : ℕ} {p : Pipe A} (v : Continues stages slots p) (k : ℕ)
      → k < stages
      → (length (p.read k) ≡ v.counts (suc k)) × (p.read k ≡ take (v.counts (suc k)) p.produced)
  read_length {p = p} v k h =
      let e = v.delivers.in_order k (omega (arith, v.same_stages)) in
      (
        ap length e
            ∙ length-take_of_le (v.counts (suc k)) p.produced
                (passed_le v.delivers k (omega (arith, v.same_stages))),
        e,
      )

  reads_prefix :
      {stages slots : ℕ} {p : Pipe A} (v : Continues stages slots p) (k : ℕ)
      → k < stages
      → p.produced ≡ p.read k ++ drop (length (p.read k)) p.produced
  reads_prefix {p = p} v k h =
      let (len, e) = read_length v k h in
      rw (len, e) (sym (take-append-drop (v.counts (suc k)) p.produced))

  in_flight :
      (count : ℕ) {stages : ℕ} {p : Pipe A} (v : Continues stages (count + 1) p)
      → 0 < stages
      → length p.produced ≤ length (p.read (stages - 1)) + count
  in_flight count {stages} {p = p} v h =
      let e : suc (stages - 1) ≡ p.ring.num_stages = omega (arith, v.same_stages) in
      omega (
        arith,
        v.delivers.made,
        v.delivers.counts.bounded,
        v.same_slots,
        ap v.counts e,
        (read_length v (stages - 1) (omega arith)).0,
      )

  -- The constructor makes a buffer when its sizes are positive and its number of slots is below
  -- 2^63, the bytes of all `count + 1` slots and of the indices are fewer than 2^64, and `malloc`
  -- meets both requests. Any interleaving of turns of the producer and of the stages from then on
  -- runs without a fatal exit and without an access outside the buffer's memory. Every stage has
  -- then read a prefix of what the producer has put in, each object once and in order, and at most
  -- `count` objects are between the producer and the last stage.
  pub run_in_order :
      (malloc : ℕ → Bool) (size count stages : ℕ) (ts : List (Turn A))
      → 0 < size
      → 0 < count
      → count + 1 < 2 ^ 63
      → size * (count + 1) < 2 ^ 64
      → 0 < stages
      → (stages + 1) * 8 < 2 ^ 64
      → malloc (size * (count + 1)) ≡ true
      → malloc ((stages + 1) * 8) ≡ true
      → All (IsTurn stages) ts
      → (b : GenericBuffer) × (p : Pipe A) × (new malloc size count stages ≡ returns b)
        × (run (start b) ts ≡ returns p)
        × ((k : ℕ) → k < stages → p.produced ≡ p.read k ++ drop (length (p.read k)) p.produced)
        × (length p.produced ≤ length (p.read (stages - 1)) + count)
  run_in_order malloc size count stages ts h1 h2 h3 fits h4 few buf indices h =
      let (b, made, c, e, e') =
        new-Counts malloc size count stages h1 h2 h3 fits h4 few buf indices in
      let (p, ret, v) =
        run-Continues stages (count + 1) (start b) ts (start-Continues stages (count + 1) c e e')
          h in
      (b, p, made, ret, λ k h'. reads_prefix v k h', in_flight count v h4)
