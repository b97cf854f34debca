-- ===== src/Tests/Buffers.antt =====
-- Buffers of DROS2/Streaming/TicketBuffer.h with frames of 10 bytes, 3 to a ticket.
use data_recorder.Base.{ℕ, ◌≡◌, arith, true, Bool, some, refl, [], ◌∷◌, returns, fatal}
use data_recorder.Streaming.Tickets.{new_ticket}
use data_recorder.Streaming.Buffer.{TicketBuffer, new_buffer, resize, free_resources}
use data_recorder.Streaming.Buffer.Ready.{resize-free_resources}

abbrev plenty : ℕ → Bool
plenty n = true

abbrev resized : TicketBuffer
resized = elim (resize plenty new_buffer 100 10 3) [ returns r ↦ r.0 | fatal ↦ new_buffer ]

-- Nine frames and three tickets.
abbrev in_use : TicketBuffer
in_use = record {
  size = 90;
  framesize = 10;
  frames_per_ticket = 3;
  num_tickets = 3;
  num_frames = 9;
  data_area = some 90;
  frames = some 72;
  iovs = some 144;
  mhdrs = some 576;
  valid = some 9;
  io = [];
  pool = record { tickets = λ _. new_ticket; free_tickets = 0 ∷ 1 ∷ 2 ∷ [] };
  next_address = 3;
  subscribers = [];
  invalid = true;
  have_resources = true;
}

resize-free_resources_example : resize plenty (free_resources in_use) 90 10 3 ≡ fatal
resize-free_resources_example =
    resize-free_resources plenty in_use 10 3 refl (λ h. absurd (omega (arith, h)))
      (λ h. absurd (omega (arith, h))) refl refl refl (omega arith)
