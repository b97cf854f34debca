-- ===== src/Streaming/Tickets/Flow.antt =====
-- Tickets on their way from the producers through the subscribers' queues and back to the free list.
use data_recorder.Base.{
  ℕ, ◌+◌, ◌≡◌, ◌≢◌, ◌<◌, ◌^◌, ◌⊎◌, inl, inr, refl, sym, subst, false, List, [], ◌∷◌, ◌++◌, ◌==◌,
  if◌then◌else◌, length, arith, Bool-cases, Option, none, some, returns, All,
}
use data_recorder.Streaming.Tickets.{
  Pool, Subscriber, put, put_all, on_reset, on_ticket_available, deliver, get_next,
  next_free_ticket, notify_fill, notify_disconnected,
}
use data_recorder.Streaming.Tickets.Counts.{
  count, count-append, queued, Kept, put-Kept, put_other-Kept,
}

-- `held` are the tickets that consumers got and have not put yet, `taken` those of the producers.
pub record Flow : Type 0 where
  pub pool : Pool
  pub subscribers : List Subscriber
  pub held : List ℕ
  pub taken : List ℕ

abbrev pub IsConnected : Subscriber → Type 0
IsConnected sub = sub.disconnected ≡ false

-- What a consumer holds after a call of `getNext`.
abbrev pub hold : Option ℕ → List ℕ → List ℕ
hold none held = held
hold (some id) held = id ∷ held

-- A call on the buffer, a ticket or a subscriber. A producer fills or returns only a ticket that it
-- took, a consumer puts only a ticket that it got, and a ticket is filled only while no subscriber
-- is disconnected.
pub data Step : Flow → Flow → Type 0 where
  acquires :
      (f : Flow) (p : Pool) (id : ℕ)
      → next_free_ticket false f.pool ≡ (p, some id)
      → Step f (record f { pool = p; taken = id ∷ f.taken })
  fills :
      (f : Flow) (before after : List ℕ) (id cnt : ℕ) (p : Pool) (subs : List Subscriber)
      → f.taken ≡ before ++ id ∷ after
      → All IsConnected f.subscribers
      → length f.subscribers < 2 ^ 64
      → notify_fill false f.pool f.subscribers id cnt ≡ returns (p, subs)
      → Step f (record f { pool = p; subscribers = subs; taken = before ++ after })
  looks :
      (f : Flow) (before after : List Subscriber) (sub sub' : Subscriber) (p : Pool)
      (found : Option ℕ)
      → f.subscribers ≡ before ++ sub ∷ after
      → get_next f.pool sub ≡ (p, sub', found)
      → Step f
          (record f { pool = p; subscribers = before ++ sub' ∷ after; held = hold found f.held })
  puts :
      (f : Flow) (before after : List ℕ) (id : ℕ)
      → f.held ≡ before ++ id ∷ after
      → Step f (record f { pool = put f.pool id; held = before ++ after })
  resets :
      (f : Flow) (before after : List Subscriber) (sub : Subscriber)
      → f.subscribers ≡ before ++ sub ∷ after
      → Step f (record f {
        pool = (on_reset f.pool sub).0;
        subscribers = before ++ (on_reset f.pool sub).1 ∷ after;
      })
  disconnects :
      (f : Flow) (before after : List Subscriber) (sub : Subscriber)
      → f.subscribers ≡ before ++ sub ∷ after
      → Step f (record f { subscribers = before ++ notify_disconnected sub ∷ after })

pub data Reach : Flow → Flow → Type 0 where
  here : (f : Flow) → Reach f f
  then_step : (f g h : Flow) → Reach f g → Step g h → Reach f h

pub queued-append :
    (t : ℕ) (xs ys : List Subscriber) → queued t (xs ++ ys) ≡ queued t xs + queued t ys
queued-append t [] ys = omega arith
queued-append t (x ∷ xs) ys = omega (arith, queued-append t xs ys)

pub Same : (id t : ℕ) → (id ≡ t) ⊎ (id ≢ t)
Same id t = elim (Bool-cases (id == t)) [
  | inl e ↦ inl (ground (arith, e))
  | inr e ↦ inr (λ h. ground (arith, e, h))
]

pub put_all-Kept :
    (ids : List ℕ) (p : Pool) (t taken out : ℕ)
    → Kept p t taken (count t ids + out)
    → Kept (put_all p ids) t taken out
unfolding put_all
put_all-Kept [] p t taken out k = subst (λ n. Kept p t taken n) (omega arith) k
put_all-Kept (id ∷ ids) p t taken out k = elim (Same id t) [
  | inl e ↦
      let one : count t (id ∷ ids) + out ≡ 1 + (count t ids + out) = ground (arith, e) in
      let k' : Kept p t taken (1 + (count t ids + out)) = subst (λ n. Kept p t taken n) one k in
      put_all-Kept ids (put p id) t taken out (
        subst (λ x. Kept (put p x) t taken (count t ids + out)) (sym e)
          (put-Kept p t taken (count t ids + out) k'))
  | inr d ↦
      let none_here : count t (id ∷ ids) + out ≡ count t ids + out = ground (arith, d) in
      let k' : Kept p t taken (count t ids + out) = subst (λ n. Kept p t taken n) none_here k in
      put_all-Kept ids (put p id) t taken out (put_other-Kept p t id taken (count t ids + out) d k')
]

pub deliver-connected :
    (id : ℕ) (p : Pool) (subs : List Subscriber)
    → All IsConnected subs
    → ((deliver id p subs).0 ≡ p)
      × ((t : ℕ)
          → queued t (deliver id p subs).1 ≡ queued t subs + (if id == t then length subs else 0))
unfolding deliver on_ticket_available
deliver-connected id p [] h = (refl, λ t. ground arith)
deliver-connected id p (sub ∷ subs) h =
    let (same, counted) = deliver-connected id p subs h.1 in
    (ground (arith, h, same), λ t. ground (arith, h, counted t, count-append t sub.queue (id ∷ [])))
