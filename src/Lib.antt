-- ===== src/Lib.antt =====
-- Verification library of the MCS-DR data recorder, DROS2: a program that receives frames of radio data
-- over the network, keeps them in buffers, and records them to disk at times set by commands.
--
-- Parts and files, with paths from the repository's root:
-- - Base: shared names, lists over native numbers, 64-bit words, and `Exit` for calls that may leave the
--   process, as the macro FATAL of DROS2/Common/misc.h does. `fatal` also stands for a null dereference,
--   a division by 0 and a write past an array.
-- - Time: DROS2/System/Time.h. Stamps of day and millisecond, slots, and their comparisons. A `size_t`
--   wraps at 2^64. Time/Stamps, Time/Slots and Time/Calendar relate them to counts of milliseconds and
--   to the calendar.
-- - Schedule: DROS2/Actors/OpsQueue.h, Schedule.h, Schedule.cpp and DROS2/Operations/ScheduledOperation.h.
--   Schedule/Operation is an operation with its virtual functions as the record `Behaviour`;
--   Schedule/Queue the queue (`insert`, `find_conflict`, `remove_by_ref`, ...); Schedule/Machine the loop
--   `run` with getState, doWait and doBusy; Schedule/Requests what clients call (scheduleOperation,
--   cancelOperation, getScheduleEntry, doAbort). The clock's readings are a list, one for each turn of
--   the loop. A call that holds the lock is one step, and Requests/Interleaving takes the steps in any
--   order; Requests/Undo schedules an operation and cancels it again.
-- - Buffers: DROS2/Buffers. Buffers/Ring has the index macros, Buffers/Generic the ring with one index for
--   each stage (GenericBuffer.cpp), Generic/Pipeline the producer and consumers of its unit test, and
--   Buffers/Simple the byte ring with an overflow area (SimpleRingBuffer.cpp). Products of sizes wrap, and
--   `malloc` is a parameter.
-- - Streaming: DROS2/Streaming. Streaming/Tickets has tickets, reference counts and queued subscribers
--   (TicketBuffer.h, QueuedSubscriber.h), on a heap that is a function of the address; Streaming/Buffer
--   the buffer's geometry and allocation; Streaming/Recorder the recorder that writes tickets to a file
--   (BaseRecorder.h); Streaming/Writer the thread of a recording (FileWriter.h, SubscriberThread.h), whose loop
--   takes its interruptions, its times and what the buffer does from a list of rounds. The recorder is a subscriber of the buffer. `realloc` and `writev` are parameters.
-- - Reception: DROS2/Actors/Receiver.h and the formats of DROS2/Data. Reception/Formats has the table of formats,
--   Reception/Receiver the state and `__doReset`, Reception/Packets how `run` looks at the received packets,
--   and Reception/Turns a turn of `run`. It fills the tickets of Streaming, whose calls it lists.
-- - Messages: DROS2/Common/CommonICD.h. The text format of commands and responses, as lists of bytes.
-- - Operations: DROS2/Operations. Operations/Files has the calls on files, which are parameters with what POSIX
--   says of them as laws; Operations/Transfer the loop that moves the bytes, Operations/Copy and
--   Operations/Dump the threads (CopyOperation.h, DumpOperation.h); Operations/Requests the commands GET, CPY
--   and DMP of DROS2/Actors/MessageProcessor.cpp, which hand files to the threads, and whose tests
--   give what the theorems on copies and dumps want; Operations/Record a recording (RecordOperation.h), which
--   owns a writer, as a `Behaviour`.
-- - Tests: the theorems at concrete inputs.
--
-- Bounds and fuel: the loop of writeTicket recurses on its 10 retries, which every turn that goes on uses
-- up; decimal digits recurse on 20, the digits of 2^64. The loop of a copy or of a dump's
-- chunk has fuel: it spins as long as calls make no progress, and a fuel above the number of such calls
-- plus the number of bytes is enough. Everything else is structural. The wait loops of
-- __invalidate and doAbort, which end when another thread acts, are `none` where they do not end at once.
--
-- Not modelled: logging, texts for people, sockets, files and shell commands, threads and locks as such,
-- the spectrometer, the other commands of the message processor, the other operations, and the test programs.
pub mod Base
pub mod Time
pub mod Buffers
pub mod Schedule
pub mod Streaming
pub mod Messages
pub mod Operations
pub mod Reception
pub mod Tests
