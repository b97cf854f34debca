-- ===== src/Tests/Recording.antt =====
-- The recorder of DROS2/Streaming/BaseRecorder.h with a ticket of two frames of 4 bytes.
use data_recorder.Base.{
  ◌+◌, ◌≡◌, ◌==◌, arith, true, false, some, refl, List, [], ◌∷◌, ◌++◌, word, if◌then◌else◌, leb,
  All,
}
use data_recorder.Base.Int.{pos}
use data_recorder.Streaming.Tickets.{Ticket, Pool, new_ticket, put}
use data_recorder.Streaming.Buffer.{Iovec}
use data_recorder.Streaming.Recorder.{
  Recorder, new_recorder, write_ticket, WriteResult, wrote, failed, judge, is_writable,
}
use data_recorder.Streaming.Recorder.Commands.{
  connects, starts, disconnects, perform_all, IsSound, perform_all-IsSound,
}
use data_recorder.Streaming.Recorder.Script.{Script, scripted, IsRetry, IsWritable}
use data_recorder.Streaming.Recorder.Writes.{write_ticket_complete, write_ticket_exhausted}

abbrev two_frames : Ticket
two_frames = record new_ticket {
  cnt_alloc = 2;
  fsize = 4;
  cnt_used = 2;
  ref_cnt = 1;
  continuous = true;
}

abbrev pool : Pool
pool = record { tickets = λ _. two_frames; free_tickets = [] }

abbrev vector : List Iovec
vector = record { iov_base = 0; iov_len = 4 } ∷ record { iov_base = 4; iov_len = 4 } ∷ []

abbrev to_file : Recorder
to_file = record new_recorder {
  buf = true;
  outfile = some (record { is_open = true; descriptor = some (pos 3) });
  size_limit = 8;
  recording = true;
}

abbrev start_script : Script
start_script = record { answers = []; asked = [] }

new-IsSound : IsSound new_recorder
new-IsSound = record { connected = λ h. absurd (cc); flagged = refl }

perform_all_example :
    IsSound
      (perform_all scripted
        (new_recorder, start_script, pool)
        (connects true ∷ starts ∷ disconnects ∷ [])).0
perform_all_example =
    perform_all-IsSound scripted (new_recorder, start_script, pool)
      (connects true ∷ starts ∷ disconnects ∷ []) new-IsSound

to_file-IsWritable : IsWritable to_file two_frames vector 0 8
unfolding is_writable
to_file-IsWritable = record {
  open_file = refl;
  contiguous = refl;
  first = (4, record { iov_base = 4; iov_len = 4 } ∷ [], refl);
  size = refl;
  some_bytes = λ h. absurd (omega (arith, h));
}

interrupted : IsRetry (failed 4)
unfolding judge
interrupted = λ c b. refl

nothing : IsRetry (wrote 0)
unfolding judge
nothing = λ c b. refl

write_ticket_complete_example :
    let script : Script = record { answers = failed 4 ∷ [] ++ wrote 8 ∷ []; asked = [] } in
    let (r', w', p') = write_ticket scripted script vector to_file pool 0 in
    let in_file = word (to_file.bytes_written_this_file + 8) in
    (r'.bytes_written_this_file ≡ in_file)
    × (r'.bytes_written_this_session ≡ word (to_file.bytes_written_this_session + 8))
    × (r'.error ≡ to_file.error)
    × (r'.recording ≡ (
        if to_file.size_limit == 0
        then to_file.recording
        else if leb to_file.size_limit in_file
        then false
        else to_file.recording))
    × (w'.answers ≡ [])
    × (p' ≡ put pool 0)
write_ticket_complete_example =
    write_ticket_complete (failed 4 ∷ []) [] vector to_file pool 0 0 8 to_file-IsWritable
      (interrupted, tt) (omega arith)

abbrev ten_failures : List WriteResult
ten_failures =
    failed 4
    ∷ wrote 0
    ∷ failed 4
    ∷ wrote 0
    ∷ failed 4
    ∷ wrote 0
    ∷ failed 4
    ∷ wrote 0
    ∷ failed 4
    ∷ wrote 0
    ∷ []

ten-IsRetry : All IsRetry ten_failures
ten-IsRetry = (
  interrupted,
  (
    nothing,
    (
      interrupted,
      (nothing, (interrupted, (nothing, (interrupted, (nothing, (interrupted, (nothing, tt))))))),
    ),
  ),
)

write_ticket_exhausted_example :
    let script : Script = record { answers = ten_failures ++ wrote 8 ∷ []; asked = [] } in
    let (r', w', p') = write_ticket scripted script vector to_file pool 0 in
    (r' ≡ to_file) × (w'.answers ≡ wrote 8 ∷ []) × (p' ≡ put pool 0)
write_ticket_exhausted_example =
    write_ticket_exhausted ten_failures (wrote 8 ∷ []) vector to_file pool 0 0 8 to_file-IsWritable
      ten-IsRetry refl
