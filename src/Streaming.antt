-- ===== src/Streaming.antt =====
-- DROS2/Streaming: tickets that carry received frames from the producer to the consumers, and the
-- recorder that writes them to a file.
pub mod Tickets
pub mod Buffer
pub mod Recorder
pub mod Writer
