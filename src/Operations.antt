-- ===== src/Operations.antt =====
-- DROS2/Operations: the operations that the scheduler runs on a thread of their own. Operations/Thread has
-- Operation.h and ThreadOperation.h, Operations/Files the calls on files that CopyOperation.h and
-- DumpOperation.h make, Operations/Transfer the loop that both of them have.
pub mod Files
pub mod Transfer
pub mod Copy
pub mod Dump
pub mod Requests
pub mod Record
