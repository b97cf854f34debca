-- ===== src/Reception.antt =====
-- DROS2/Data and DROS2/Actors/Receiver.h: the formats of the received frames, and the receiver that puts
-- them into tickets and finds out the format.
pub mod Formats
pub mod Receiver
pub mod Packets
pub mod Turns
