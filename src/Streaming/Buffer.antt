-- ===== src/Streaming/Buffer.antt =====
-- DROS2/Streaming/TicketBuffer.h: the buffer itself, its geometry and its subscribers. An array is the
-- number of bytes allocated for it, `none` if the pointer is null. `realloc` is a parameter: whether
-- it meets a request of so many bytes. The free list's tickets are owned by the buffer alone.
pub mod Geometry
pub mod Room
pub mod Ready
use data_recorder.Base.{
  ℕ, zero, suc, ◌+◌, ◌-◌, ◌*◌, ◌/◌, Bool, true, false, Option, none, some, List, [], ◌∷◌, ◌++◌,
  ◌==◌, if◌then◌else◌, length, leb, ltb, drop, Exit, returns, fatal, not, word, sub_word, ◌>>=◌,
}
use data_recorder.Streaming.Tickets.{new_ticket, init, Pool, Subscriber, update, reset_all}

-- `struct iovec`, its base an offset into the data area.
pub record Iovec : Type 0 where
  pub iov_base : ℕ
  pub iov_len : ℕ

pub record TicketBuffer : Type 0 where
  pub size : ℕ
  pub framesize : ℕ
  pub frames_per_ticket : ℕ
  pub num_tickets : ℕ
  pub num_frames : ℕ
  pub data_area : Option ℕ
  pub frames : Option ℕ
  pub iovs : Option ℕ
  pub mhdrs : Option ℕ
  pub valid : Option ℕ
  pub io : List Iovec
  pub pool : Pool
  pub next_address : ℕ
  pub subscribers : List Subscriber
  pub invalid : Bool
  pub have_resources : Bool

unfoldable pub new_buffer : TicketBuffer
new_buffer = record {
  size = 0;
  framesize = 0;
  frames_per_ticket = 0;
  num_tickets = 0;
  num_frames = 0;
  data_area = none;
  frames = none;
  iovs = none;
  mhdrs = none;
  valid = none;
  io = [];
  pool = record { tickets = λ _. new_ticket; free_tickets = [] };
  next_address = 0;
  subscribers = [];
  invalid = true;
  have_resources = false;
}

-- `____freeResources`. The counts and sizes stay as they were.
unfoldable pub free_resources : TicketBuffer → TicketBuffer
free_resources b = if not b.have_resources then b else record b {
  data_area = none;
  frames = none;
  iovs = none;
  mhdrs = none;
  valid = none;
  pool = record b.pool { free_tickets = [] };
  have_resources = false;
}

-- The loop that adds new tickets to the free list, `n` times.
unfoldable pub add_tickets : ℕ → TicketBuffer → TicketBuffer
add_tickets zero b = b
add_tickets (suc n) b =
    let p = b.pool in
    let id = b.next_address in
    add_tickets n (record b {
      pool = record {
        tickets = λ k. if k == id then new_ticket else p.tickets k;
        free_tickets = p.free_tickets ++ id ∷ [];
      };
      next_address = id + 1;
      have_resources = true;
    })

-- As many tickets as are wanted: new ones are added, or the first ones deleted.
unfoldable pub set_tickets : TicketBuffer → ℕ → TicketBuffer
set_tickets b n =
    let k = length b.pool.free_tickets in
    if ltb k n
    then add_tickets (n - k) b
    else record b { pool = record b.pool { free_tickets = drop (k - n) b.pool.free_tickets } }

-- The entries of `iovs`, from the index on.
unfoldable pub fill_iovs : ℕ → ℕ → ℕ → List Iovec
fill_iovs framesize i zero = []
fill_iovs framesize i (suc n) =
    record { iov_base = i * framesize; iov_len = framesize } ∷ fill_iovs framesize (i + 1) n

-- `init` for each free ticket, the first at index `i`.
unfoldable pub init_tickets : ℕ → ℕ → ℕ → Pool → List ℕ → Pool
init_tickets framesize frames_per_ticket i p [] = p
init_tickets framesize frames_per_ticket i p (id ∷ ids) =
    init_tickets framesize frames_per_ticket (i + 1)
      (update p id (init (i * frames_per_ticket) frames_per_ticket framesize true)) ids

-- Whether `n` bytes can be written through a pointer.
unfoldable pub holds : Option ℕ → ℕ → Bool
holds none n = n == 0
holds (some k) n = leb n k

module _ (realloc : ℕ → Bool) where
  -- The four allocations of `__resize` for `n` frames, each of which stops it if it fails.
  unfoldable pub alloc_frames : ℕ → TicketBuffer → TicketBuffer × Bool
  alloc_frames n b =
      if not (realloc (word (n * 8)))
      then (b, false)
      else let b1 = record b { frames = some (word (n * 8)); have_resources = true } in
        if not (realloc (word (n * 16)))
        then (b1, false)
        else let b2 = record b1 { iovs = some (word (n * 16)) } in
          if not (realloc (word (n * 64)))
          then (b2, false)
          else let b3 = record b2 { mhdrs = some (word (n * 64)) } in
            if not (realloc n) then (b3, false) else (record b3 { valid = some n }, true)

  unfoldable pub alloc_data : ℕ → TicketBuffer → TicketBuffer × Bool
  alloc_data n b =
      if b.size == n
      then (b, true)
      else if not (realloc n)
      then (b, false)
      else (record b { data_area = some n; have_resources = true }, true)

-- The last part of `__resize`: the arrays and tickets are set up. `fatal` is a write through a null
-- pointer or past an array's end.
unfoldable pub set_up : ℕ → ℕ → ℕ → ℕ → ℕ → TicketBuffer → Exit TicketBuffer
set_up size framesize frames_per_ticket n tickets b =
    let writable =
      if not (holds b.iovs (n * 16))
      then false
      else if not (holds b.mhdrs (n * 64))
      then false
      else if not (holds b.frames (n * 8))
      then false
      else holds b.valid n in
    if not writable
    then fatal
    else returns (record b {
      io = fill_iovs framesize 0 n;
      pool = init_tickets framesize frames_per_ticket 0 b.pool b.pool.free_tickets;
      size = size;
      framesize = framesize;
      frames_per_ticket = frames_per_ticket;
      num_tickets = tickets;
      num_frames = n;
    })

-- `__resize`, with whether it succeeded. A division by 0 is `fatal`.
unfoldable pub resize : (ℕ → Bool) → TicketBuffer → ℕ → ℕ → ℕ → Exit (TicketBuffer × Bool)
resize realloc b size framesize frames_per_ticket =
    if framesize == 0
    then fatal
    else if frames_per_ticket == 0
    then fatal
    else let new_num_frames = size / framesize in
      let n = (new_num_frames / frames_per_ticket + 1) * frames_per_ticket - frames_per_ticket in
      let tickets = n / frames_per_ticket in
      let (b1, data_ok) = alloc_data realloc size b in
      if not data_ok
      then returns (b1, false)
      else let (b2, frames_ok) =
          if b.num_frames == new_num_frames then (b1, true) else alloc_frames realloc n b1 in
        if not frames_ok
        then returns (b2, false)
        else let b3 = if b.num_tickets == tickets then b2 else set_tickets b2 tickets in
          do b4 ← set_up size framesize frames_per_ticket n tickets b3; returns (b4, true)

-- `__invalidate`: the subscribers put their tickets. `none` if tickets are still held then, so that
-- the wait goes on until other threads put them.
unfoldable pub invalidate : TicketBuffer → Option TicketBuffer
invalidate b =
    if b.invalid
    then some b
    else let (pool, subscribers) = reset_all b.pool b.subscribers in
      if length pool.free_tickets == b.num_tickets
      then some (record b { pool = pool; subscribers = subscribers; invalid = true })
      else none

unfoldable pub reset : (ℕ → Bool) → TicketBuffer → ℕ → ℕ → ℕ → Option (Exit TicketBuffer)
reset realloc b size framesize frames_per_ticket = elim (invalidate b) [
  | none ↦ none
  | some b' ↦ some (do
    (b'', ok) ← resize realloc b' size framesize frames_per_ticket
    returns (record b'' { invalid = not ok }))
]

unfoldable pub uninit : TicketBuffer → Option TicketBuffer
uninit b = elim (invalidate b) [ none ↦ none | some b' ↦ some (free_resources b') ]

-- `subscribe` of a subscriber that is not null, and `unsubscribe` with whether the subscriber was found.
unfoldable pub subscribe : TicketBuffer → Subscriber → TicketBuffer
subscribe b who = record b { subscribers = b.subscribers ++ who ∷ [] }

unfoldable pub erase : ℕ → List Subscriber → List Subscriber × Bool
erase who [] = ([], false)
erase who (sub ∷ subs) =
    let (others, erased) = erase who subs in
    if sub.sub_name == who then (others, true) else (sub ∷ others, erased)

unfoldable pub unsubscribe : TicketBuffer → ℕ → TicketBuffer × Bool
unsubscribe b who =
    let (subs, erased) = erase who b.subscribers in (record b { subscribers = subs }, erased)

unfoldable pub have_subscribers : TicketBuffer → Bool
have_subscribers b = not (length b.subscribers == 0)

unfoldable pub get_subscriber_count : TicketBuffer → ℕ
get_subscriber_count b = length b.subscribers

-- The bytes of the tickets that are not free.
unfoldable pub usage : TicketBuffer → ℕ
usage b =
    word (b.frames_per_ticket * b.framesize * sub_word b.num_tickets (length b.pool.free_tickets))
