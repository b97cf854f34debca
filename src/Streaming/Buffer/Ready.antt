-- ===== src/Streaming/Buffer/Ready.antt =====
-- A buffer that is ready stays so when it is resized; one whose resources were freed is not ready.
use data_recorder.Base.{ℕ, ◌/◌, ◌≡◌, ◌≢◌, ◌<◌, Bool, true, fatal, arith}
use data_recorder.Streaming.Buffer.{TicketBuffer, resize, set_up, alloc_data, holds, free_resources}
use data_recorder.Streaming.Buffer.Geometry.{fixed}

-- After the resources of a buffer with frames are freed, a resize with positive sizes to the
-- geometry that it had (so that its size, frame count and ticket count do not change) writes
-- through a null pointer.
pub resize-free_resources :
    (realloc : ℕ → Bool) (b : TicketBuffer) (framesize m : ℕ)
    → b.have_resources ≡ true
    → framesize ≢ 0
    → m ≢ 0
    → b.num_frames ≡ b.size / framesize
    → b.num_frames ≡ fixed (b.size / framesize) m
    → b.num_tickets ≡ b.num_frames / m
    → 0 < b.num_frames
    → resize realloc (free_resources b) b.size framesize m ≡ fatal
unfolding resize free_resources alloc_data set_up holds
resize-free_resources realloc b framesize m own framed ticketed whole frames tickets some_frames =
    ground (arith, own, framed, ticketed, whole, frames, tickets, some_frames)
