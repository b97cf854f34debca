-- ===== src/Tests/TicketFlow.antt =====
-- Two tickets of DROS2/Streaming/TicketBuffer.h and one queued subscriber.
use data_recorder.Base.{
  ◌≡◌, arith, false, some, refl, List, [], ◌∷◌, returns, Bool, if◌then◌else◌, ◌==◌,
}
use data_recorder.Streaming.Tickets.{
  Pool, Subscriber, new_ticket, next_free_ticket, notify_fill, use_ticket, deliver,
  on_ticket_available, update, reset_all,
}
use data_recorder.Streaming.Tickets.Counts.{count}
use data_recorder.Streaming.Tickets.Flow.{Flow, Reach, here, then_step, acquires, fills}
use data_recorder.Streaming.Tickets.Conservation.{KeptIn, Reach-KeptIn, reset_all-frees}

abbrev recorder : Bool → Subscriber
recorder disconnected = record { sub_name = 1; disconnected = disconnected; queue = [] }

abbrev full_pool : Pool
full_pool = record { tickets = λ _. new_ticket; free_tickets = 0 ∷ 1 ∷ [] }

abbrev at_start : Flow
at_start = record { pool = full_pool; subscribers = recorder false ∷ []; held = []; taken = [] }

abbrev taken_pool : Pool
taken_pool = record { tickets = λ _. new_ticket; free_tickets = 1 ∷ [] }

acquired : next_free_ticket false full_pool ≡ (taken_pool, some 0)
unfolding next_free_ticket
acquired = refl

abbrev after_acquire : Flow
after_acquire = record at_start { pool = taken_pool; taken = 0 ∷ [] }

abbrev filled_pool : Pool
filled_pool = record taken_pool {
  tickets = λ k.
      if k == 0
      then record (if k == 0 then record new_ticket { cnt_used = 5 } else new_ticket) {
        ref_cnt = 1;
      }
      else (if k == 0 then record new_ticket { cnt_used = 5 } else new_ticket);
}

abbrev one_queued : List Subscriber
one_queued = record (recorder false) { queue = 0 ∷ [] } ∷ []

filled : notify_fill false taken_pool (recorder false ∷ []) 0 5 ≡ returns (filled_pool, one_queued)
unfolding notify_fill use_ticket deliver on_ticket_available update
filled = refl

abbrev after_fill : Flow
after_fill = record after_acquire { pool = filled_pool; subscribers = one_queued; taken = [] }

-- The producer takes ticket 0 and fills it.
path : Reach at_start after_fill
path =
    then_step at_start after_acquire after_fill
      (then_step at_start at_start after_acquire (here at_start)
        (acquires at_start taken_pool 0 acquired))
      (fills after_acquire [] [] 0 5 filled_pool one_queued refl (refl, tt) (omega arith) filled)

start-KeptIn : KeptIn at_start 0
start-KeptIn = record {
  idle = λ _. refl;
  busy = λ h. absurd (omega (arith, h));
  refs = λ h. absurd (omega (arith, h));
  small = omega arith;
}

Reach-KeptIn_example : KeptIn after_fill 0
Reach-KeptIn_example = Reach-KeptIn 0 path start-KeptIn

reset_all_example : count 0 (reset_all after_fill.pool after_fill.subscribers).0.free_tickets ≡ 1
reset_all_example = reset_all-frees 0 path start-KeptIn refl refl
