-- ===== src/Streaming/Tickets/Counts.antt =====
-- How often a ticket stands in the free list and in the subscribers' queues, and what a put changes.
use data_recorder.Base.{
  ℕ, ◌+◌, ◌≡◌, ◌≢◌, ◌<◌, ◌^◌, inl, inr, true, List, [], ◌∷◌, ◌++◌, ◌==◌, if◌then◌else◌, sub_word,
  arith, Bool-cases,
}
use data_recorder.Streaming.Tickets.{Pool, Subscriber, update, release_ticket, put}

abbrev pub count : ℕ → List ℕ → ℕ
count t [] = 0
count t (id ∷ ids) = (if id == t then 1 else 0) + count t ids

pub count-append : (t : ℕ) (xs ys : List ℕ) → count t (xs ++ ys) ≡ count t xs + count t ys
count-append t [] ys = omega arith
count-append t (x ∷ xs) ys = omega (arith, count-append t xs ys)

-- The places of a ticket in all queues.
abbrev pub queued : ℕ → List Subscriber → ℕ
queued t [] = 0
queued t (sub ∷ subs) = count t sub.queue + queued t subs

-- `out` references to the ticket are not put yet and `taken` producers hold it. A ticket with no such
-- reference is free or taken, one in all; another is neither, and its reference count is `out`.
pub record Kept (p : Pool) (t taken out : ℕ) : Type 0 where
  pub idle : out ≡ 0 → count t p.free_tickets + taken ≡ 1
  pub busy : 0 < out → count t p.free_tickets + taken ≡ 0
  pub refs : 0 < out → (p.tickets t).ref_cnt ≡ out
  pub small : out < 2 ^ 64

pub put-Kept : (p : Pool) (t taken out : ℕ) → Kept p t taken (1 + out) → Kept (put p t) t taken out
unfolding put update release_ticket
put-Kept p t taken out k =
    let r : sub_word (p.tickets t).ref_cnt 1 ≡ out = omega (arith, k.refs, k.small) in
    let self : (t == t) ≡ true = ground arith in
    let added = count-append t p.free_tickets (t ∷ []) in
    elim (Bool-cases (out == 0)) [
      | inl e ↦ ground (arith, k, r, self, added, e)
      | inr e ↦ ground (arith, k, r, self, added, e)
    ]

-- A put of another ticket.
pub put_other-Kept :
    (p : Pool) (t id taken out : ℕ) → id ≢ t → Kept p t taken out → Kept (put p id) t taken out
unfolding put update release_ticket
put_other-Kept p t id taken out d k =
    let added = count-append t p.free_tickets (id ∷ []) in ground (arith, k, d, added)
