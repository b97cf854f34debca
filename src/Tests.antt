-- ===== src/Tests.antt =====
-- The theorems applied to concrete inputs.
mod Copying
mod Times
mod Queues
mod Scheduling
mod Rings
mod TicketFlow
mod Buffers
mod Recording
mod Messages
mod Writing
mod Receiving
