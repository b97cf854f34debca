-- ===== src/Streaming/Tickets/Moves.antt =====
-- What each call makes of a kept ticket.
use data_recorder.Base.{
  ℕ, ◌+◌, ◌≡◌, ◌<◌, ◌^◌, ◌⊎◌, inl, inr, refl, sym, subst, false, List, [], ◌∷◌, ◌++◌, ◌==◌,
  if◌then◌else◌, length, arith, Bool-cases, Option, none, some, returns, All,
}
use data_recorder.Streaming.Tickets.{
  Pool, Subscriber, update, release_ticket, put, put_all, on_reset, deliver, get_next,
  next_free_ticket, use_ticket, notify_fill, return_empty,
}
use data_recorder.Streaming.Tickets.Counts.{
  count, count-append, queued, Kept, put-Kept, put_other-Kept,
}
use data_recorder.Streaming.Tickets.Flow.{
  IsConnected, hold, queued-append, Same, put_all-Kept, deliver-connected,
}

-- The counts of a ticket are what they were.
pub moved :
    {p : Pool} {t taken taken' out out' : ℕ}
    → taken ≡ taken'
    → out ≡ out'
    → Kept p t taken out
    → Kept p t taken' out'
moved e e' k = rw (← e, ← e') k

pub acquire-Kept :
    (p p' : Pool) (t id taken out : ℕ)
    → next_free_ticket false p ≡ (p', some id)
    → Kept p t taken out
    → Kept p' t ((if id == t then 1 else 0) + taken) out
unfolding next_free_ticket
acquire-Kept p p' t id taken out e k = ground (arith, k, e)

return_empty-Kept :
    (p : Pool) (t id taken out : ℕ)
    → Kept p t ((if id == t then 1 else 0) + taken) out
    → Kept (return_empty p id) t taken out
unfolding return_empty release_ticket update
return_empty-Kept p t id taken out k = ground (arith, k, count-append t p.free_tickets (id ∷ []))

use_ticket-Kept :
    (p p' : Pool) (subs subs' : List Subscriber) (t id taken held : ℕ)
    → All IsConnected subs
    → length subs < 2 ^ 64
    → use_ticket false p subs id ≡ returns (p', subs')
    → Kept p t ((if id == t then 1 else 0) + taken) (queued t subs + held)
    → Kept p' t taken (queued t subs' + held)
unfolding use_ticket release_ticket update
use_ticket-Kept p p' [] subs' t id taken held c b e k =
    ground (arith, k, e, count-append t p.free_tickets (id ∷ []))
use_ticket-Kept p p' (sub ∷ subs) subs' t id taken held c b e k =
    let all = sub ∷ subs in
    let q : Pool = update p id (λ x. record x { ref_cnt = length all }) in
    let (same, counted) = deliver-connected id q all c in
    let result : deliver id q all ≡ (p', subs') = ground (arith, e) in
    subst (λ (r : Pool × List Subscriber). Kept r.0 t taken (queued t r.1 + held)) result
      (rw same (ground (arith, k, b, counted t)))

set_used-Kept :
    (p : Pool) (t id cnt : ℕ) {taken out : ℕ}
    → Kept p t taken out
    → Kept (update p id (λ x. record x { cnt_used = cnt })) t taken out
unfolding update
set_used-Kept p t id cnt k = ground (arith, k)

pub notify_fill-Kept :
    (p p' : Pool) (subs subs' : List Subscriber) (t id cnt taken held : ℕ)
    → All IsConnected subs
    → length subs < 2 ^ 64
    → notify_fill false p subs id cnt ≡ returns (p', subs')
    → Kept p t ((if id == t then 1 else 0) + taken) (queued t subs + held)
    → Kept p' t taken (queued t subs' + held)
unfolding notify_fill
notify_fill-Kept p p' subs subs' t id cnt taken held c b e k = elim (Bool-cases (cnt == 0)) [
  | inl z ↦
      let result : (return_empty p id, subs) ≡ (p', subs') = ground (arith, e, z) in
      subst (λ (r : Pool × List Subscriber). Kept r.0 t taken (queued t r.1 + held)) result
        (return_empty-Kept p t id taken _ k)
  | inr z ↦
      let q = update p id (λ x. record x { cnt_used = cnt }) in
      let result : use_ticket false q subs id ≡ returns (p', subs') = ground (arith, e, z) in
      use_ticket-Kept q p' subs subs' t id taken held c b result (set_used-Kept p t id cnt k)
]

pub put_one-Kept :
    (p : Pool) (t id taken out : ℕ)
    → Kept p t taken ((if id == t then 1 else 0) + out)
    → Kept (put p id) t taken out
put_one-Kept p t id taken out k = elim (Same id t) [
  | inl e ↦
      subst (λ x. Kept (put p x) t taken out) (sym e)
        (put-Kept p t taken out (subst (λ n. Kept p t taken n) (ground (arith, e)) k))
  | inr d ↦ put_other-Kept p t id taken out d (subst (λ n. Kept p t taken n) (ground (arith, d)) k)
]

-- The counts of a list with a middle element, and of subscribers with a middle one.
pub count-middle :
    (t id : ℕ) (before after : List ℕ)
    → count t (before ++ id ∷ after) ≡ (if id == t then 1 else 0) + count t (before ++ after)
count-middle t id before after =
    omega (arith, count-append t before (id ∷ after), count-append t before after)

pub queued-middle :
    (t : ℕ) (sub : Subscriber) (before after : List Subscriber)
    → queued t (before ++ sub ∷ after) ≡ count t sub.queue + (queued t before + queued t after)
queued-middle t sub before after = omega (arith, queued-append t before (sub ∷ after))

pub get_next-Kept :
    (p p' : Pool) (sub sub' : Subscriber) (found : Option ℕ) (held : List ℕ) (t taken other : ℕ)
    → get_next p sub ≡ (p', sub', found)
    → Kept p t taken (count t sub.queue + other + count t held)
    → Kept p' t taken (count t sub'.queue + other + count t (hold found held))
unfolding get_next on_reset
get_next-Kept p p' sub sub' found held t taken other e k = elim (Bool-cases sub.disconnected) [
  | inl d ↦
      let result : (put_all p sub.queue, record sub { queue = [] }, none) ≡ (p', sub', found) =
        ground (arith, e, d) in
      subst
        (λ (r : Pool × Subscriber × Option ℕ).
          Kept r.0 t taken (count t r.1.queue + other + count t (hold r.2 held)))
        result
        (put_all-Kept sub.queue p t taken (0 + other + count t held)
          (subst (λ n. Kept p t taken n) (omega arith) k))
  | inr d ↦ elim (List-cases sub.queue) [
    | inl q ↦
        let result : (p, sub, none) ≡ (p', sub', found) = ground (arith, e, d, q) in
        subst
          (λ (r : Pool × Subscriber × Option ℕ).
            Kept r.0 t taken (count t r.1.queue + other + count t (hold r.2 held)))
          result k
    | inr (id, rest, q) ↦
        let result : (p, record sub { queue = rest }, some id) ≡ (p', sub', found) =
          ground (arith, e, d, q) in
        subst
          (λ (r : Pool × Subscriber × Option ℕ).
            Kept r.0 t taken (count t r.1.queue + other + count t (hold r.2 held)))
          result (subst (λ n. Kept p t taken n) (ground (arith, q)) k)
  ]
]
  where
    List-cases : (xs : List ℕ) → (xs ≡ []) ⊎ ((x : ℕ) × (rest : List ℕ) × (xs ≡ x ∷ rest))
    List-cases [] = inl refl
    List-cases (x ∷ xs) = inr (x, xs, refl)
