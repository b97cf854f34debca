-- ===== src/Streaming/Writer/Shared.antt =====
-- A ticket that a recording shares with another subscriber.
use data_recorder.Base.{ℕ, ◌≡◌, refl, ap, ◌∙◌, true, false, List, [], ◌∷◌, ◌++◌, ==_refl}
use data_recorder.Time.{TimeStamp}
use data_recorder.Streaming.Tickets.{Pool, put, update, release_ticket}
use data_recorder.Streaming.Buffer.{Iovec}
use data_recorder.Streaming.Recorder.{WriteResult}
use data_recorder.Streaming.Writer.{FileWriter, has_ended, can_continue, on_ticket_received}

put_one_of_two :
    (p : Pool) (id : ℕ)
    → (p.tickets id).ref_cnt ≡ 2
    → (((put p id).tickets id).ref_cnt ≡ 1) × ((put p id).free_tickets ≡ p.free_tickets)
unfolding put update release_ticket
put_one_of_two p id h = rw (h, ==_refl id) (refl, refl)

put_last :
    (p : Pool) (id : ℕ)
    → (p.tickets id).ref_cnt ≡ 1
    → (put p id).free_tickets ≡ p.free_tickets ++ id ∷ []
unfolding put update release_ticket
put_last p id h = rw h refl

module _ {W : Type 0} (writev : W → List Iovec → W × WriteResult) (frames : ℕ → List Iovec) where
  -- A ticket that one other subscriber still holds is left to it where the recording goes on, with one reference. Where the
  -- recording has been stopped, or has ended, since the ticket was taken from the queue, it is put twice: it is among the
  -- free tickets while the other subscriber reads it.
  pub on_ticket_received-shared :
      (now : TimeStamp) (w : W) (r : FileWriter) (p : Pool) (id : ℕ)
      → (p.tickets id).ref_cnt ≡ 2
      → let p' = (on_ticket_received writev frames now w r p id).2 in
        (has_ended r ≡ false → ((p'.tickets id).ref_cnt ≡ 1) × (p'.free_tickets ≡ p.free_tickets))
        × (has_ended r ≡ true → p'.free_tickets ≡ p.free_tickets ++ id ∷ [])
  unfolding on_ticket_received can_continue
  on_ticket_received-shared now w r p id h =
      let one = put_one_of_two p id h in
      (
        λ goes. rw (goes, on_ticket_received, can_continue) one,
        λ ended.
            rw (ended, on_ticket_received, can_continue)
              (put_last (put p id) id one.0 ∙ ap (λ l. l ++ id ∷ []) one.1),
      )
