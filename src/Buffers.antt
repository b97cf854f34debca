-- ===== src/Buffers.antt =====
-- DROS2/Buffers: the ring buffers between the recorder's threads, and their shared index macros.
pub mod Ring
pub mod Generic
pub mod Simple
