-- ===== src/Streaming/Tickets.antt =====
-- DROS2/Streaming/TicketBuffer.h and QueuedSubscriber.h: tickets, their reference counts, the pool of
-- free tickets and the subscribers' queues. A pointer to a ticket is its address, a number; the heap
-- is a function of the address. Each locked call is one step. All subscribers are queued ones.
pub mod Counts
pub mod Flow
pub mod Moves
pub mod Conservation
use data_recorder.Base.{
  ℕ, ◌+◌, Bool, true, false, Option, none, some, List, [], ◌∷◌, ◌++◌, ◌==◌, if◌then◌else◌, length,
  word, sub_word, Exit, returns, fatal, not,
}

-- `Ticket`. The buffer's four arrays are entered at the same index, `first_frame`.
pub record Ticket : Type 0 where
  pub first_frame : ℕ
  pub cnt_alloc : ℕ
  pub fsize : ℕ
  pub cnt_used : ℕ
  pub ref_cnt : ℕ
  pub continuous : Bool
  pub proxy_cancelled : Bool

-- The ticket's constructor, with null pointers as index 0.
abbrev pub new_ticket : Ticket
new_ticket = record {
  first_frame = 0;
  cnt_alloc = 0;
  fsize = 0;
  cnt_used = 0;
  ref_cnt = 0;
  continuous = false;
  proxy_cancelled = true;
}

-- `init`
unfoldable pub init : ℕ → ℕ → ℕ → Bool → Ticket → Ticket
init first_frame cnt_alloc fsize continuous t = record t {
  first_frame = first_frame;
  cnt_alloc = cnt_alloc;
  fsize = fsize;
  cnt_used = 0;
  ref_cnt = 0;
  continuous = continuous;
}

-- The tickets of a buffer and the list of the free ones.
pub record Pool : Type 0 where
  pub tickets : ℕ → Ticket
  pub free_tickets : List ℕ

pub record Subscriber : Type 0 where
  pub sub_name : ℕ
  pub disconnected : Bool
  pub queue : List ℕ

unfoldable pub update : Pool → ℕ → (Ticket → Ticket) → Pool
update p id f = record p { tickets = λ k. if k == id then f (p.tickets k) else p.tickets k }

unfoldable pub release_ticket : Pool → ℕ → Pool
release_ticket p id = record p { free_tickets = p.free_tickets ++ id ∷ [] }

unfoldable pub put : Pool → ℕ → Pool
unfolding update release_ticket
put p id =
    let ref_cnt = sub_word (p.tickets id).ref_cnt 1 in
    let p' = update p id (λ t. record t { ref_cnt = ref_cnt }) in
    if ref_cnt == 0 then release_ticket p' id else p'

unfoldable pub re_get : Pool → ℕ → ℕ → Pool
re_get p id cnt = update p id (λ t. record t { ref_cnt = word (t.ref_cnt + cnt) })

-- `__onReset` puts every queued ticket, first to last.
unfoldable pub put_all : Pool → List ℕ → Pool
put_all p [] = p
put_all p (id ∷ ids) = put_all (put p id) ids

unfoldable pub on_reset : Pool → Subscriber → Pool × Subscriber
on_reset p sub = (put_all p sub.queue, record sub { queue = [] })

-- The loop of `__invalidate` over the subscribers.
unfoldable pub reset_all : Pool → List Subscriber → Pool × List Subscriber
reset_all p [] = (p, [])
reset_all p (sub ∷ subs) =
    let (p', sub') = on_reset p sub in let (p'', subs') = reset_all p' subs in (p'', sub' ∷ subs')

-- The `put` of the disconnected branch stands inside a comment of the source.
unfoldable pub on_ticket_available : Pool → Subscriber → ℕ → Pool × Subscriber
on_ticket_available p sub id =
    if sub.disconnected then on_reset p sub else (p, record sub { queue = sub.queue ++ id ∷ [] })

unfoldable pub get_next : Pool → Subscriber → Pool × Subscriber × Option ℕ
get_next p sub =
    let (p', sub') = on_reset p sub in
    if sub.disconnected then (p', sub', none) else elim sub.queue [
      | [] ↦ (p, sub, none)
      | id ∷ rest ↦ (p, record sub { queue = rest }, some id)
    ]

unfoldable pub notify_disconnected : Subscriber → Subscriber
notify_disconnected sub = record sub { disconnected = true }

-- The loop of `useTicket` over the subscribers.
unfoldable pub deliver : ℕ → Pool → List Subscriber → Pool × List Subscriber
deliver id p [] = (p, [])
deliver id p (sub ∷ subs) =
    let (p', sub') = on_ticket_available p sub id in
    let (p'', subs') = deliver id p' subs in (p'', sub' ∷ subs')

unfoldable pub use_ticket : Bool → Pool → List Subscriber → ℕ → Exit (Pool × List Subscriber)
use_ticket invalid p subs id = if invalid then fatal else elim subs [
  | [] ↦ returns (release_ticket p id, [])
  | sub ∷ rest ↦
      let all = sub ∷ rest in
      returns (deliver id (update p id (λ t. record t { ref_cnt = length all })) all)
]

unfoldable pub return_empty : Pool → ℕ → Pool
return_empty p id = release_ticket (update p id (λ t. record t { cnt_used = 0 })) id

unfoldable pub notify_fill : Bool → Pool → List Subscriber → ℕ → ℕ → Exit (Pool × List Subscriber)
notify_fill invalid p subs id cnt =
    if cnt == 0
    then returns (return_empty p id, subs)
    else use_ticket invalid (update p id (λ t. record t { cnt_used = cnt })) subs id

unfoldable pub get_producer_proxy : Pool → ℕ → ℕ → Bool → Pool
get_producer_proxy p id peers preserves_continuity = update p id (λ t. record t {
  proxy_cancelled = false;
  cnt_used = 0;
  continuous = preserves_continuity;
  ref_cnt = peers;
})

unfoldable pub cancel_producer_proxy : Pool → ℕ → Pool
cancel_producer_proxy p id = update p id (λ t. record t { proxy_cancelled = true })

unfoldable pub put_producer_proxy :
    Bool → Pool → List Subscriber → ℕ → ℕ → Exit (Pool × List Subscriber)
put_producer_proxy invalid p subs id cnt_used =
    let ref_cnt = sub_word (p.tickets id).ref_cnt 1 in
    let used = word ((p.tickets id).cnt_used + cnt_used) in
    let p' = update p id (λ t. record t { cnt_used = used; ref_cnt = ref_cnt }) in
    if not (ref_cnt == 0)
    then returns (p', subs)
    else if (p.tickets id).proxy_cancelled
    then returns (release_ticket p' id, subs)
    else use_ticket invalid p' subs id

unfoldable pub next_free_ticket : Bool → Pool → Pool × Option ℕ
next_free_ticket invalid p = if invalid then (p, none) else elim p.free_tickets [
  | [] ↦ (p, none)
  | id ∷ rest ↦ (record p { free_tickets = rest }, some id)
]
