-- ===== src/Streaming/Tickets/Conservation.antt =====
-- No ticket is lost or freed twice on its way.
use data_recorder.Base.{
  ℕ, ◌+◌, ◌≡◌, refl, ap, sym, true, false, List, [], ◌∷◌, ◌++◌, arith, returns, ◌∙◌,
}
use data_recorder.Streaming.Tickets.{
  Pool, Subscriber, update, put_all, on_reset, on_ticket_available, deliver, reset_all, use_ticket,
  notify_disconnected,
}
use data_recorder.Streaming.Tickets.Counts.{count, queued, Kept}
use data_recorder.Streaming.Tickets.Flow.{
  Flow, hold, Step, acquires, fills, looks, puts, resets, disconnects, Reach, here, then_step,
  put_all-Kept,
}
use data_recorder.Streaming.Tickets.Moves.{
  moved, acquire-Kept, notify_fill-Kept, put_one-Kept, count-middle, queued-middle, get_next-Kept,
}

-- The ticket is kept, with the references and the producers that the flow knows of.
abbrev pub KeptIn : Flow → ℕ → Type 0
KeptIn f t = Kept f.pool t (count t f.taken) (queued t f.subscribers + count t f.held)

reset_one :
    (t : ℕ) (f : Flow) (before after : List Subscriber) (sub : Subscriber)
    → f.subscribers ≡ before ++ sub ∷ after
    → KeptIn f t
    → Kept
        (on_reset f.pool sub).0
        t
        (count t f.taken)
        (queued t (before ++ (on_reset f.pool sub).1 ∷ after) + count t f.held)
unfolding on_reset
reset_one t f before after sub e k =
    let other = queued t before + queued t after + count t f.held in
    moved refl (omega (arith, queued-middle t (record sub { queue = [] }) before after)) (
      put_all-Kept sub.queue f.pool t _ other (
        moved refl
          (ap (λ subs. queued t subs + count t f.held) e
            ∙ omega (arith, queued-middle t sub before after))
          k))

disconnect_one :
    (t : ℕ) (f : Flow) (before after : List Subscriber) (sub : Subscriber)
    → f.subscribers ≡ before ++ sub ∷ after
    → KeptIn f t
    → Kept f.pool t
        (count t f.taken)
        (queued t (before ++ notify_disconnected sub ∷ after) + count t f.held)
unfolding notify_disconnected
disconnect_one t f before after sub e k =
    moved refl
      (ap (λ subs. queued t subs + count t f.held) e
        ∙ omega (
          arith,
          queued-middle t sub before after,
          queued-middle t (record sub { disconnected = true }) before after,
        ))
      k

Step-KeptIn : (t : ℕ) {f g : Flow} → Step f g → KeptIn f t → KeptIn g t
Step-KeptIn t (acquires f p id e) k = acquire-Kept f.pool p t id _ _ e k
Step-KeptIn t (fills f before after id cnt p subs e c b filled) k =
    notify_fill-Kept f.pool p f.subscribers subs t id cnt (count t (before ++ after))
      (count t f.held) c b filled (moved (ap (count t) e ∙ count-middle t id before after) refl k)
Step-KeptIn t (looks f before after sub sub' p found e found_e) k =
    let other = queued t before + queued t after in
    moved refl (ap (λ n. n + count t (hold found f.held)) (sym (queued-middle t sub' before after)))
      (get_next-Kept f.pool p sub sub' found f.held t _ other found_e (
        moved refl
          (ap (λ subs. queued t subs + count t f.held) e
            ∙ ap (λ n. n + count t f.held) (queued-middle t sub before after))
          k))
Step-KeptIn t (puts f before after id e) k =
    put_one-Kept f.pool t id _ (queued t f.subscribers + count t (before ++ after)) (
      moved refl
        (ap (λ l. queued t f.subscribers + count t l) e
          ∙ omega (arith, count-middle t id before after))
        k)
Step-KeptIn t (resets f before after sub e) k = reset_one t f before after sub e k
Step-KeptIn t (disconnects f before after sub e) k = disconnect_one t f before after sub e k

-- On every path of the calls of `Step`, a ticket that is kept at the start stays kept: if no
-- reference to it is left, it is free once or with one producer; else it is neither, and its
-- reference count is the number of its places in the queues and with the consumers.
pub Reach-KeptIn : (t : ℕ) {f g : Flow} → Reach f g → KeptIn f t → KeptIn g t
Reach-KeptIn t (here f) k = k
Reach-KeptIn t (then_step f g h path step) k = Step-KeptIn t step (Reach-KeptIn t path k)

reset_all-Kept :
    (subs : List Subscriber) (p : Pool) (t taken out : ℕ)
    → Kept p t taken (queued t subs + out)
    → Kept (reset_all p subs).0 t taken out
unfolding reset_all on_reset
reset_all-Kept [] p t taken out k = moved refl (omega arith) k
reset_all-Kept (sub ∷ subs) p t taken out k =
    reset_all-Kept subs (put_all p sub.queue) t taken out
      (put_all-Kept sub.queue p t taken (queued t subs + out) (moved refl (omega arith) k))

-- On every path of the calls of `Step`, from a state where a ticket is kept: when no producer
-- and no consumer holds the ticket at the end, resetting all subscribers makes it free, in one
-- place of the free list.
pub reset_all-frees :
    (t : ℕ) {f g : Flow}
    → Reach f g
    → KeptIn f t
    → count t g.taken ≡ 0
    → count t g.held ≡ 0
    → count t (reset_all g.pool g.subscribers).0.free_tickets ≡ 1
reset_all-frees t {f} {g} path k no_producer no_consumer =
    let end = Reach-KeptIn t path k in
    let freed = reset_all-Kept g.subscribers g.pool t (count t g.taken) (count t g.held) end in
    omega (arith, freed.idle no_consumer, no_producer)

-- A ticket that is filled while the only subscriber is disconnected and has nothing queued is
-- lost: the call returns, the free list is as it was, the ticket is in no queue, and its
-- reference count is 1.
pub use_ticket-disconnected :
    (p : Pool) (sub : Subscriber) (id : ℕ)
    → sub.disconnected ≡ true
    → sub.queue ≡ []
    → (p' : Pool) × (subs : List Subscriber) × (use_ticket false p (sub ∷ []) id
        ≡ returns (p', subs))
      × (p'.free_tickets ≡ p.free_tickets)
      × (queued id subs ≡ 0)
      × ((p'.tickets id).ref_cnt ≡ 1)
unfolding use_ticket deliver on_ticket_available on_reset put_all update
use_ticket-disconnected p sub id d q =
    let p' : Pool = update p id (λ t. record t { ref_cnt = 1 }) in
    (p', sub ∷ [], ground (arith, d, q), refl, ground (arith, q), ground arith)
