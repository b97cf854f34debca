-- ===== src/Tests/Receiving.antt =====
-- The receiver, at concrete inputs.
use data_recorder.Base.{ℕ, ◌≡◌, ◌≢◌, refl, false, [], ◌∷◌, arith, returns, ◌/◌}
use data_recorder.Reception.Formats.{get_format_by_name, tbs_filt_8, data_format}
use data_recorder.Reception.Receiver.{
  Receiver, new_receiver, ideal_transfer_size, initial_buffer_size, return_empty, reset,
  notify_fill,
}
use data_recorder.Reception.Packets.{Packet, Batch, kind_of, index, is_tbs, add_lengths, tbt}
use data_recorder.Reception.Turns.{Turn, turn, packets, cancel}
use data_recorder.Reception.Turns.Settles.{IsSized, settled, next_after, turn_settles}
use data_recorder.Reception.Turns.Uniform.{of_tbt}
use data_recorder.Reception.Turns.Locks.{announced, turn_locks}
use data_recorder.Reception.Turns.Stuck.{turn_stuck}

abbrev packet : ℕ → Packet
packet size = record { msg_len = size; dec_factor = 0; drx_is_adp = false; n_chan = 3072 }

-- Packets of one size, in a ticket with frames of another.
abbrev batch : ℕ → ℕ → Batch
batch fsize size = record { fsize = fsize; frames = λ _. packet size }

abbrev receiver : Receiver
receiver = new_receiver

receiver-IsSized : IsSized receiver
unfolding new_receiver
receiver-IsSized = record { transfer = refl; buffer = refl }

turn_settles_example :
    (t : Turn) × (turn receiver (packets (batch 4128 8220) 2) ≡ returns t)
    × (settled t.calls ≡ 1)
    × IsSized t.receiver
    × (t.next ≡ next_after (packets (batch 4128 8220) 2))
turn_settles_example = turn_settles receiver (packets (batch 4128 8220) 2) receiver-IsSized

apart : index tbt ≢ index (kind_of 4128)
unfolding index kind_of is_tbs
apart e = omega (arith, e)

is_tbt : kind_of 8220 ≡ tbt
unfolding kind_of is_tbs
is_tbt = refl

is_current : 4128 ≡ receiver.current_format.frame_size
unfolding new_receiver get_format_by_name data_format
is_current = refl

is_announced : 8220 ≡ (get_format_by_name (announced tbt (packet 8220))).frame_size
unfolding announced get_format_by_name data_format
is_announced = refl

-- From DRX frames to TBT frames.
turn_locks_example :
    let f = get_format_by_name (announced tbt (packet 8220)) in
    (t t' : Turn) × (turn receiver (packets (batch 4128 8220) 2) ≡ returns t)
    × (t.calls
        ≡ return_empty
          ∷ reset initial_buffer_size f.frame_size (ideal_transfer_size / f.frame_size)
          ∷ [])
    × (t.receiver.current_format ≡ f)
    × (turn t.receiver (packets (batch 8220 8220) 4) ≡ returns t')
    × (t'.calls ≡ notify_fill 5 ∷ [])
    × (t'.receiver.current_format ≡ f)
turn_locks_example =
    turn_locks receiver (batch 4128 8220) (batch 8220 8220) 2 4 8220 tbt receiver-IsSized of_tbt
      is_tbt (λ _. λ _. refl) is_current apart (λ _. λ _. is_announced)

-- A receiver of TBS frames with 8 channels.
abbrev tbs_receiver : Receiver
tbs_receiver = record new_receiver { current_format = get_format_by_name tbs_filt_8 }

is_tbs_current : 4124 ≡ tbs_receiver.current_format.frame_size
unfolding get_format_by_name data_format
is_tbs_current = refl

same_kind : kind_of 4124 ≡ kind_of 6172
unfolding kind_of is_tbs
same_kind = refl

-- It gets frames with 12 channels.
turn_stuck_example :
    turn tbs_receiver (packets (batch 4124 6172) 2)
    ≡ returns (
        cancel (record tbs_receiver {
          bytes_received = add_lengths (λ _. packet 6172) 0 3 tbs_receiver.bytes_received;
        }))
turn_stuck_example =
    turn_stuck tbs_receiver (batch 4124 6172) 2 6172 is_tbs_current (λ _. λ _. refl) same_kind
      (λ e. omega (arith, e))
