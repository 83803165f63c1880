-- ===== src/Examples/Dlq.antt =====
-- The theorems on Replay, at a queue that answers one full batch after the other.
use dispute_router.Common.{
  ℕ, zero, suc, ◌≡◌, refl, Bool, true, false, List, [], ◌∷◌, Option, none, some, arith, length,
}
use dispute_router.Common.Int.{pos, ◌≤ℤ◌}
use dispute_router.Database.Transaction.{works, fails}
use dispute_router.Dlq.{
  Message, Sqs, Outcome, replay, replay_loop, after_receive, replay_batch, replay_message,
  move_message, batch_max, int32, idle,
}
use dispute_router.Dlq.Replay.{SentFirst, replay-SentFirst}
use dispute_router.Dlq.Counts.{replay-stops}
use dispute_router.Dlq.Bounds.{counted}

abbrev letter : Message
letter = record {
  receipt_handle = "h";
  body = "{}";
  receives = pos 5;
  redrives = pos 0;
  first_seen = 0;
}

abbrev ten : List Message
ten = letter ∷ letter ∷ letter ∷ letter ∷ letter ∷ letter ∷ letter ∷ letter ∷ letter ∷ letter ∷ []

abbrev full_queue : Sqs
full_queue = record {
  receive_message = λ round most. some ten;
  send_message = λ round msg. works;
  delete_message = λ round msg. works;
}

-- A queue with one letter that cannot be sent, and then a receive that fails.
abbrev broken_queue : Sqs
broken_queue = record {
  receive_message = λ round most. if_last round;
  send_message = λ round msg. fails;
  delete_message = λ round msg. works;
}
  where
    if_last : ℕ → Option (List Message)
    if_last zero = none
    if_last (suc n) = some (letter ∷ [])

abbrev summary : Option Outcome → Option (ℕ × ℕ × Bool)
summary none = none
summary (some o) = some (counted o.result, length o.result.errors, o.receive_failed)

-- A limit of 15 moves 20 messages.
replay_overshoots : summary (replay 16 full_queue (pos 15) (pos 3) false) ≡ some (20, 0, false)
unfolding replay replay_loop after_receive replay_batch replay_message move_message
replay_overshoots = refl

-- One failure, and no reason for it.
replay_loses_errors : summary (replay 2 broken_queue (pos 15) (pos 3) false) ≡ some (1, 0, true)
unfolding replay replay_loop after_receive replay_batch replay_message move_message
replay_loses_errors = refl

abbrev outcome_of : Option Outcome → Outcome
outcome_of none = record { result = idle.stats; receive_failed = false; work = idle; released = [] }
outcome_of (some o) = o

abbrev ended : Outcome
ended = outcome_of (replay 16 full_queue (pos 15) (pos 3) false)

replay-stops_example : (o : Outcome) × (replay 16 full_queue (pos 15) (pos 3) true ≡ some o)
replay-stops_example = replay-stops 16 full_queue (pos 15) (pos 3) true (omega arith) (omega arith)

replay-SentFirst_example : SentFirst ended.work
unfolding replay replay_loop after_receive replay_batch replay_message move_message
replay-SentFirst_example = replay-SentFirst 16 full_queue (pos 15) (pos 3) false ended refl

full_batches :
    (batch : List Message) → some ten ≡ some batch → pos (length batch) ≤ℤ batch_max (pos 15)
unfolding batch_max int32
full_batches batch e = ground (arith, e)
