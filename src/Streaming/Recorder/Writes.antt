-- ===== src/Streaming/Recorder/Writes.antt =====
-- How a ticket gets to the file.
use data_recorder.Base.{
  ℕ, suc, ◌+◌, ◌-◌, ◌^◌, ◌≡◌, ◌<◌, refl, ap, true, false, List, [], ◌∷◌, ◌++◌, if◌then◌else◌, ◌==◌,
  arith, word, sub_word, length, All, leb, ◌∙◌,
}
use data_recorder.Streaming.Tickets.{Pool, put}
use data_recorder.Streaming.Buffer.{Iovec}
use data_recorder.Streaming.Recorder.{
  Recorder, on_file_event, conclude, write_ticket, write_loop, WriteResult, wrote, Ending, done,
  too_many_retries, advance,
}
use data_recorder.Streaming.Recorder.Script.{
  Script, scripted, IsRetry, IsWritable, whole, write_loop-retries, write_ticket_loop,
  write_loop_complete, judge_partial, judge_all, write_loop_go_on, write_loop-finish,
}

-- A contiguous ticket with bytes to write, for an open file, is written if `writev` writes all
-- its bytes after fewer than ten failures that may be repeated: the bytes are counted once for
-- the file and for the session, the error flag stays as it was, the recording stops exactly if
-- there is a limit and the file has reached it, and the ticket is put.
pub write_ticket_complete :
    (answers rest : List WriteResult) (frames : List Iovec) (r : Recorder) (p : Pool)
    (id base bytes : ℕ)
    → IsWritable r (p.tickets id) frames base bytes
    → All IsRetry answers
    → length answers < 10
    → let script : Script = record { answers = answers ++ wrote bytes ∷ rest; asked = [] } in
      let (r', w', p') = write_ticket scripted script frames r p id in
      let in_file = word (r.bytes_written_this_file + bytes) in
      (r'.bytes_written_this_file ≡ in_file)
      × (r'.bytes_written_this_session ≡ word (r.bytes_written_this_session + bytes))
      × (r'.error ≡ r.error)
      × (r'.recording ≡ (
          if r.size_limit == 0
          then r.recording
          else if leb r.size_limit in_file
          then false
          else r.recording))
      × (w'.answers ≡ rest)
      × (p' ≡ put p id)
unfolding conclude on_file_event
write_ticket_complete answers rest frames r p id base bytes v retried few =
    let k = 9 - length answers in
    let script : Script = record { answers = answers ++ wrote bytes ∷ rest; asked = [] } in
    let fuel : 10 ≡ length answers + suc k = omega (arith, few) in
    let (asked, tried) =
      write_loop-retries answers (wrote bytes ∷ rest) [] (suc k) true (whole base bytes) bytes 0
        retried in
    let (asked', written) =
      write_loop_complete rest asked k bytes 0 (whole base bytes) v.some_bytes in
    let ends : write_loop scripted 10 script true (whole base bytes) bytes 0
        ≡ (record { answers = rest; asked = asked' }, done (word (0 + bytes))) =
      ap (λ n. write_loop scripted n script true (whole base bytes) bytes 0) fuel
      ∙ tried
      ∙ written in
    let one : word (0 + bytes) ≡ bytes = omega (arith, v.size) in
    let result : write_ticket scripted script frames r p id
        ≡ (conclude (done bytes) r, record { answers = rest; asked = asked' }, put p id) =
      write_ticket_loop script frames r p id base bytes v
      ∙ ap (λ (e : Script × Ending). (conclude e.1 r, e.0, put p id)) ends
      ∙ ap (λ n. (conclude (done n) r, record { answers = rest; asked = asked' }, put p id)) one in
    rw result (ground arith)

-- After ten failures that may be repeated, a contiguous ticket with bytes to write, for an open
-- file, is put without being written, and the recorder stays as it was, with no error reported.
pub write_ticket_exhausted :
    (answers rest : List WriteResult) (frames : List Iovec) (r : Recorder) (p : Pool)
    (id base bytes : ℕ)
    → IsWritable r (p.tickets id) frames base bytes
    → All IsRetry answers
    → length answers ≡ 10
    → let script : Script = record { answers = answers ++ rest; asked = [] } in
      let (r', w', p') = write_ticket scripted script frames r p id in
      (r' ≡ r) × (w'.answers ≡ rest) × (p' ≡ put p id)
unfolding conclude write_loop
write_ticket_exhausted answers rest frames r p id base bytes v retried ten =
    let script : Script = record { answers = answers ++ rest; asked = [] } in
    let fuel : 10 ≡ length answers + 0 = omega (arith, ten) in
    let (asked, tried) =
      write_loop-retries answers rest [] 0 true (whole base bytes) bytes 0 retried in
    let ends : write_loop scripted 10 script true (whole base bytes) bytes 0
        ≡ (record { answers = rest; asked = asked }, too_many_retries) =
      ap (λ n. write_loop scripted n script true (whole base bytes) bytes 0) fuel ∙ tried in
    let result : write_ticket scripted script frames r p id
        ≡ (r, record { answers = rest; asked = asked }, put p id) =
      write_ticket_loop script frames r p id base bytes v
      ∙ ap (λ (e : Script × Ending). (conclude e.1 r, e.0, put p id)) ends in
    rw result (refl, refl, refl)

-- If `writev` writes `k` of a contiguous ticket's bytes to an open file, some but fewer than
-- all, and then the rest, the second vector starts `k` bytes further and is as long as the
-- first: it ends `k` bytes after the ticket.
pub write_ticket_partial :
    (frames : List Iovec) (r : Recorder) (p : Pool) (id base bytes k : ℕ)
    → IsWritable r (p.tickets id) frames base bytes
    → 0 < k
    → k < bytes
    → let script : Script = record { answers = wrote k ∷ wrote (bytes - k) ∷ []; asked = [] } in
      let (r', w', p') = write_ticket scripted script frames r p id in
      w'.asked ≡ whole base bytes ∷ whole (base + k) bytes ∷ []
unfolding advance
write_ticket_partial frames r p id base bytes k v some_written partial =
    let script : Script = record { answers = wrote k ∷ wrote (bytes - k) ∷ []; asked = [] } in
    let small : bytes < 2 ^ 64 = omega (arith, v.size) in
    let left : sub_word bytes k ≡ bytes - k = omega (arith, small, partial) in
    let again : List (List Iovec) = whole base bytes ∷ [] in
    let next : Script = record { answers = wrote (bytes - k) ∷ []; asked = again } in
    let first =
      write_loop_go_on k bytes 0 9 (wrote (bytes - k) ∷ []) [] (whole base bytes)
        (judge_partial k bytes some_written partial) in
    let second =
      write_loop-finish (bytes - k) (word (0 + k)) 8 [] again (whole (base + k) bytes)
        (judge_all (bytes - k) (omega (arith, partial))) in
    let ends = write_ticket_loop script frames r p id base bytes v in
    let asks : (write_loop scripted 10 script true (whole base bytes) bytes 0).0.asked
        ≡ whole base bytes ∷ whole (base + k) bytes ∷ [] =
      ap (λ (e : Script × Ending). e.0.asked) first
      ∙ ap
          (λ b. (write_loop scripted 9 next true (whole (base + k) bytes) b (word (0 + k))).0.asked)
          left
      ∙ ap (λ (e : Script × Ending). e.0.asked) second in
    ap (λ (e : Recorder × Script × Pool). e.1.asked) ends ∙ asks
