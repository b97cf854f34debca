-- ===== src/Streaming/Buffer/Room.antt =====
-- The arrays of a buffer with room for its frames, and what each part of a resize keeps of them.
use native.Mathlib.Nat.{le-div_iff_mul-le}
use data_recorder.Base.{
  ℕ, zero, suc, ◌+◌, ◌-◌, ◌*◌, ◌/◌, ◌^◌, ◌≡◌, ◌≤◌, ◌<◌, refl, ap, Bool, true, Option, none, some,
  List, [], ◌∷◌, ◌++◌, ◌==◌, if◌then◌else◌, length, drop, returns, arith, length-append, ◌∙◌,
}
use data_recorder.Streaming.Tickets.{Pool, update, new_ticket}
use data_recorder.Streaming.Buffer.{
  TicketBuffer, set_up, alloc_data, alloc_frames, holds, fill_iovs, init_tickets, set_tickets,
  add_tickets,
}
use data_recorder.Streaming.Buffer.Geometry.{fixed, mul_mono, fixed_lem}

-- Each array has room for the buffer's frames, and each ticket is free.
abbrev pub IsReady : TicketBuffer → Type 0
IsReady b =
    (holds b.iovs (b.num_frames * 16) ≡ true)
    × (holds b.mhdrs (b.num_frames * 64) ≡ true)
    × (holds b.frames (b.num_frames * 8) ≡ true)
    × (holds b.valid b.num_frames ≡ true)
    × (length b.pool.free_tickets ≡ b.num_tickets)

pub length-drop :
    {A : Type 0} (n : ℕ) (xs : List A) → n ≤ length xs → length (drop n xs) ≡ length xs - n
length-drop zero xs h = omega arith
length-drop (suc n) [] h = omega arith
length-drop (suc n) (x ∷ xs) h = omega (arith, length-drop n xs (omega arith))

-- Adding tickets changes nothing but the pool, the next address and the flag.
pub add_tickets_lem :
    (n : ℕ) (b : TicketBuffer)
    → (length (add_tickets n b).pool.free_tickets ≡ length b.pool.free_tickets + n)
      × ((add_tickets n b).iovs ≡ b.iovs)
      × ((add_tickets n b).mhdrs ≡ b.mhdrs)
      × ((add_tickets n b).frames ≡ b.frames)
      × ((add_tickets n b).valid ≡ b.valid)
unfolding add_tickets
add_tickets_lem zero b = (omega arith, refl, refl, refl, refl)
add_tickets_lem (suc n) b = ground (
  arith,
  add_tickets_lem n (record b {
    pool = record {
      tickets = λ k. if k == b.next_address then new_ticket else b.pool.tickets k;
      free_tickets = b.pool.free_tickets ++ b.next_address ∷ [];
    };
    next_address = b.next_address + 1;
    have_resources = true;
  }),
  length-append b.pool.free_tickets (b.next_address ∷ []),
)

pub set_tickets_lem :
    (b : TicketBuffer) (n : ℕ)
    → (length (set_tickets b n).pool.free_tickets ≡ n)
      × ((set_tickets b n).iovs ≡ b.iovs)
      × ((set_tickets b n).mhdrs ≡ b.mhdrs)
      × ((set_tickets b n).frames ≡ b.frames)
      × ((set_tickets b n).valid ≡ b.valid)
unfolding set_tickets
set_tickets_lem b n =
    let k = length b.pool.free_tickets in
    ground (arith, add_tickets_lem (n - k) b, length-drop (k - n) b.pool.free_tickets)

pub init_tickets-free :
    (framesize n i : ℕ) (p : Pool) (ids : List ℕ)
    → (init_tickets framesize n i p ids).free_tickets ≡ p.free_tickets
unfolding init_tickets update
init_tickets-free framesize n i p [] = refl
init_tickets-free framesize n i p (id ∷ ids) = init_tickets-free framesize n (i + 1) _ ids

module _ (realloc : ℕ → Bool) (met : (k : ℕ) → 0 < k → realloc k ≡ true) where
  pub alloc_data_lem :
      (n : ℕ) (b : TicketBuffer)
      → 0 < n
      → let r = alloc_data realloc n b in
        (r.1 ≡ true)
        × (r.0.iovs ≡ b.iovs)
        × (r.0.mhdrs ≡ b.mhdrs)
        × (r.0.frames ≡ b.frames)
        × (r.0.valid ≡ b.valid)
        × (r.0.pool ≡ b.pool)
  unfolding alloc_data
  alloc_data_lem n b p = ground (arith, met n p)

  pub alloc_frames_lem :
      (n : ℕ) (b : TicketBuffer)
      → 0 < n
      → n * 64 < 2 ^ 64
      → let r = alloc_frames realloc n b in
        (r.1 ≡ true)
        × (r.0.iovs ≡ some (n * 16))
        × (r.0.mhdrs ≡ some (n * 64))
        × (r.0.frames ≡ some (n * 8))
        × (r.0.valid ≡ some n)
        × (r.0.pool ≡ b.pool)
  unfolding alloc_frames
  alloc_frames_lem n b p h = ground (
    arith,
    met (n * 8) (omega (arith, p)),
    met (n * 16) (omega (arith, p)),
    met (n * 64) (omega (arith, p)),
    met n p,
    h,
  )

-- The arrays have room for `n` frames.
abbrev pub HasRoom : TicketBuffer → ℕ → Type 0
HasRoom b n =
    (holds b.iovs (n * 16) ≡ true)
    × (holds b.mhdrs (n * 64) ≡ true)
    × (holds b.frames (n * 8) ≡ true)
    × (holds b.valid n ≡ true)

holds_mono : (a : Option ℕ) (m n : ℕ) → n ≤ m → holds a m ≡ true → holds a n ≡ true
unfolding holds
holds_mono none m n h e = ground (arith, h, e)
holds_mono (some k) m n h e = ground (arith, h, e)

pub HasRoom-mono : (b : TicketBuffer) (m n : ℕ) → n ≤ m → HasRoom b m → HasRoom b n
HasRoom-mono b m n h (i, j, f, v) = (
  holds_mono b.iovs (m * 16) (n * 16) (omega (arith, h)) i,
  holds_mono b.mhdrs (m * 64) (n * 64) (omega (arith, h)) j,
  holds_mono b.frames (m * 8) (n * 8) (omega (arith, h)) f,
  holds_mono b.valid m n h v,
)

pub HasRoom-allocated :
    (b : TicketBuffer) (n : ℕ)
    → b.iovs ≡ some (n * 16)
    → b.mhdrs ≡ some (n * 64)
    → b.frames ≡ some (n * 8)
    → b.valid ≡ some n
    → HasRoom b n
unfolding holds
HasRoom-allocated b n i j f v = ground (arith, i, j, f, v)

-- The arrays of the first state are those of the second.
pub HasRoom-same :
    (b c : TicketBuffer) (n : ℕ)
    → b.iovs ≡ c.iovs
    → b.mhdrs ≡ c.mhdrs
    → b.frames ≡ c.frames
    → b.valid ≡ c.valid
    → HasRoom c n
    → HasRoom b n
HasRoom-same b c n i j f v h = rw (i, j, f, v) h

pub set_up-IsReady :
    (size framesize m n tickets : ℕ) (b : TicketBuffer)
    → HasRoom b n
    → length b.pool.free_tickets ≡ tickets
    → (b' : TicketBuffer) × (set_up size framesize m n tickets b ≡ returns b')
      × IsReady b'
      × (b'.num_tickets ≡ tickets)
unfolding set_up
set_up-IsReady size framesize m n tickets b h l = (
  record b {
    io = fill_iovs framesize 0 n;
    pool = init_tickets framesize m 0 b.pool b.pool.free_tickets;
    size = size;
    framesize = framesize;
    frames_per_ticket = m;
    num_tickets = tickets;
    num_frames = n;
  },
  ground (arith, h),
  (h.0, h.1, h.2, h.3, ap length (init_tickets-free framesize m 0 b.pool b.pool.free_tickets) ∙ l),
  refl,
)

pub fixed_pos : (frames m : ℕ) → 0 < m → m ≤ frames → 0 < fixed frames m
fixed_pos frames m p h =
    let one : 1 ≤ frames / m = (le-div_iff_mul-le p).1 (omega (arith, h)) in
    let more : 1 * m ≤ frames / m * m = mul_mono 1 (frames / m) m one in
    omega (arith, fixed_lem frames m, more, p)
