-- ===== src/Schedule.antt =====
-- DROS2/Actors/OpsQueue.h, Schedule.h and Schedule.cpp: the queue of timed operations and the
-- scheduler that runs them, with DROS2/Operations/ScheduledOperation.h.
pub mod Operation
pub mod Queue
pub mod Machine
pub mod Requests
