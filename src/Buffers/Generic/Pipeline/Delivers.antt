-- ===== src/Buffers/Generic/Pipeline/Delivers.antt =====
-- What stays true of the pipeline's memory and of what its stages have read, turn by turn.
use native.Mathlib.Decide.{dec_lt}
use native.Mathlib.Nat.{mul-div_cancel_left, mod-lt}
use native.Mathlib.Numerals.{add-one}
use data_recorder.Base.{
  sym, ℕ, suc, ◌+◌, ◌*◌, ◌/◌, ◌%◌, ◌≤◌, ◌<◌, ◌≡◌, ◌≢◌, ◌∙◌, refl, ap, arith, true, some, returns,
  [], ◌∷◌, ◌++◌, length, get_elem?, length-append, take, take-append, take-suc,
  get_elem?-append_left, get_elem?-append_end, get_elem?_of_lt,
}
use data_recorder.Buffers.Ring.{counters-ne}
use data_recorder.Buffers.Generic.{GenericBuffer, slot, is_inside, next_in, next_stage}
use data_recorder.Buffers.Generic.Counters.{
  Counts, bump, next_in_lem, next_stage_lem, count_mono, slot_lem, slot-inside,
}
use data_recorder.Buffers.Generic.Steps.{advanced, done_in_lem, done_stage_lem}
use data_recorder.Buffers.Generic.Pipeline.{Pipe, update, to_list, produce_at, consume_at, start}

same_offset : (i j size : ℕ) → 0 < size → size * i ≡ size * j → i ≡ j
same_offset i j size h e =
    sym (mul-div_cancel_left i h) ∙ ap (λ (t : ℕ). t / size) e ∙ mul-div_cancel_left j h

module _ {A : Type 0} where
  -- Each object in the ring lies in its slot, and each stage has read the first of the objects that
  -- were put in, as many as it has passed on.
  pub record Delivers (p : Pipe A) (count : ℕ → ℕ) : Type 0 where
    pub counts : Counts p.ring count
    pub made : length p.produced ≡ count 0
    pub stored :
        (n : ℕ)
        → count p.ring.num_stages ≤ n
        → n < count 0
        → p.cells (slot p.ring (n % p.ring.obj_count)) ≡ get_elem? p.produced n
    pub in_order : (k : ℕ) → k < p.ring.num_stages → p.read k ≡ take (count (suc k)) p.produced

  pub start-Delivers : {b : GenericBuffer} → Counts b (λ _. 0) → Delivers (start b) (λ _. 0)
  unfolding start
  start-Delivers c = record {
    counts = c;
    made = refl;
    stored = λ n h h'. elim h' [ ];
    in_order = λ k h. refl;
  }

  abbrev pub SameShape : Pipe A → Pipe A → Type 0
  SameShape p p' = (p'.ring.num_stages ≡ p.ring.num_stages) × (p'.ring.obj_count ≡ p.ring.obj_count)

  module _ {p : Pipe A} {count : ℕ → ℕ} (d : Delivers p count) where
    in_ring : count p.ring.num_stages ≤ count 0
    in_ring =
        count_mono count p.ring.num_stages 0 p.ring.num_stages d.counts.ordered (omega arith)
          (omega arith)

    in_range : (n : ℕ) → n % p.ring.obj_count < p.ring.obj_count
    in_range n = mod-lt n {m = p.ring.obj_count} (omega (arith, d.counts.has_slots))

    -- The slots of two objects of the ring are different.
    slots_ne :
        (n : ℕ)
        → count p.ring.num_stages ≤ n
        → n < count 0
        → slot p.ring (n % p.ring.obj_count) ≢ slot p.ring (count 0 % p.ring.obj_count)
    slots_ne n h h' e =
        let i = n % p.ring.obj_count in
        let j = count 0 % p.ring.obj_count in
        let low : i < p.ring.obj_count = in_range n in
        let high : j < p.ring.obj_count = in_range (count 0) in
        let same = sym (slot_lem d.counts i low) ∙ e ∙ slot_lem d.counts j high in
        counters-ne (count 0) n p.ring.obj_count h' (omega (arith, d.counts.bounded))
          (sym (same_offset i j p.ring.obj_size d.counts.has_size same))

    -- The slots that are offered lie in the memory.
    inside : (n : ℕ) → is_inside p.ring (slot p.ring (n % p.ring.obj_count)) ≡ true
    inside n = slot-inside d.counts (n % p.ring.obj_count) (in_range n)

    -- The pointer that `nextIn` returns.
    next_in_ptr :
        (ptr : ℕ) → next_in p.ring ≡ some ptr → ptr ≡ slot p.ring (count 0 % p.ring.obj_count)
    next_in_ptr ptr e = ground (arith, next_in_lem d.counts)

    stored-produce :
        (x : A) (n : ℕ)
        → count p.ring.num_stages ≤ n
        → n < count 0 + 1
        → update p.cells
            (slot p.ring (count 0 % p.ring.obj_count))
            (some x)
            (slot p.ring (n % p.ring.obj_count))
          ≡ get_elem? (p.produced ++ x ∷ []) n
    stored-produce x n h h' = elim (dec_lt n (count 0)) [
      | yes l ↦ ground (
        arith,
        slots_ne n h l,
        d.stored n h l,
        get_elem?-append_left p.produced (x ∷ []) n (omega (arith, d.made)),
      )
      | no l ↦
          let e : n ≡ count 0 = omega arith in
          rw e (ground (arith, get_elem?-append_end p.produced x (count 0) (omega (arith, d.made))))
    ]

    pub passed_le : (k : ℕ) → k < p.ring.num_stages → count (suc k) ≤ length p.produced
    passed_le k h = omega (
      arith,
      d.made,
      count_mono count p.ring.num_stages 0 (suc k) d.counts.ordered (omega arith) h,
    )

    pub produce-Delivers :
        (x : A) (ptr : ℕ)
        → next_in p.ring ≡ some ptr
        → (p' : Pipe A) × (produce_at p x (some ptr) ≡ returns p')
          × Delivers p' (bump count 0)
          × SameShape p p'
    unfolding produce_at
    produce-Delivers x ptr e =
        let (ret, c') = done_in_lem d.counts ptr e in
        let safe : is_inside p.ring ptr ≡ true = rw (next_in_ptr ptr e) (inside (count 0)) in
        (
          record p {
            ring = advanced p.ring 0;
            cells = update p.cells ptr (some x);
            produced = p.produced ++ x ∷ [];
          },
          rw (safe, ret),
          record {
            counts = c';
            made = omega (arith, length-append p.produced (x ∷ []), d.made);
            stored = λ n h h'.
                rw (next_in_ptr ptr e)
                  (stored-produce x n (ground (arith, d.counts.has_stages)) (ground arith));
            in_order = λ k h. ground (
              arith,
              d.in_order k h,
              take-append (count (suc k)) p.produced (x ∷ []) (passed_le k h),
            );
          },
          (refl, refl),
        )

    next_stage_ptr :
        (k ptr : ℕ)
        → k < p.ring.num_stages
        → next_stage p.ring k ≡ returns (some ptr)
        → (ptr ≡ slot p.ring (count (suc k) % p.ring.obj_count)) × (count (suc k) < count k)
    next_stage_ptr k ptr h e = ground (arith, next_stage_lem d.counts k h)

    -- The object that a stage reads is the next one of those that were put in.
    read_next :
        (k ptr : ℕ)
        → k < p.ring.num_stages
        → next_stage p.ring k ≡ returns (some ptr)
        → p.read k ++ to_list (p.cells ptr) ≡ take (count (suc k) + 1) p.produced
    read_next k ptr h e =
        let (at, waiting) = next_stage_ptr k ptr h e in
        let mono = count_mono count p.ring.num_stages in
        let low : count p.ring.num_stages ≤ count (suc k) =
          mono (suc k) p.ring.num_stages d.counts.ordered h (omega arith) in
        let high : count (suc k) < count 0 =
          omega (arith, mono 0 k d.counts.ordered (omega arith) (omega arith)) in
        let (x, found) = get_elem?_of_lt p.produced (count (suc k)) (omega (arith, d.made)) in
        let cell : p.cells ptr ≡ some x = rw at (d.stored (count (suc k)) low high ∙ found) in
        rw (cell, d.in_order k h, add-one) (sym (take-suc (count (suc k)) p.produced x found))

    pub consume-Delivers :
        (k ptr : ℕ)
        → k < p.ring.num_stages
        → next_stage p.ring k ≡ returns (some ptr)
        → (p' : Pipe A) × (consume_at p k (some ptr) ≡ returns p')
          × Delivers p' (bump count (suc k))
          × SameShape p p'
    unfolding consume_at
    consume-Delivers k ptr h e =
        let (ret, c') = done_stage_lem d.counts k ptr h e in
        let at = (next_stage_ptr k ptr h e).0 in
        let safe : is_inside p.ring ptr ≡ true = rw at (inside (count (suc k))) in
        (
          record p {
            ring = advanced p.ring (suc k);
            read = update p.read k (p.read k ++ to_list (p.cells ptr));
          },
          rw (safe, ret),
          record {
            counts = c';
            made = ground (arith, d.made);
            stored = λ n h1 h2. d.stored n (ground arith) (ground arith);
            in_order = λ j h'. ground (arith, d.in_order j h', read_next k ptr h e);
          },
          (refl, refl),
        )
