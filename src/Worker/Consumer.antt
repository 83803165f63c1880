-- ===== src/Worker/Consumer.antt =====
-- internal/worker/events.go: queue messages turned into deadlines. The two JSON decodings are parameters; ids
-- are not negative. The queue is the list of the messages that are not deleted.
pub mod Delivery
use dispute_router.Common.{
  ℕ, ◌+◌, Bool, true, false, not, ◌||◌, List, [], ◌∷◌, Option, none, some, ◌==◌, str_eq, String,
  filter_where, ltb, if◌then◌else◌,
}
use dispute_router.Common.Int.{ℤ, pos, leb_ℤ, ltb_ℤ}
use dispute_router.Common.Bytes.{Bytes}
use dispute_router.Database.Transaction.{Result, ok, err, Fate, works, fails, unseen}
use dispute_router.Worker.Deadlines.{ZSet, schedule}

-- `envelope`.
pub record Envelope : Type 0 where
  pub outbox_id : ℕ
  pub aggregate_type : String
  pub aggregate_id : ℕ
  pub event_type : String
  pub payload : Bytes

-- `disputeReceived`; the zero instant is 0.
pub record DisputeReceived : Type 0 where
  pub dispute_id : ℕ
  pub deadline_at : ℕ

-- What encoding/json makes of a body and of a payload.
pub record Codec : Type 0 where
  pub decode_envelope : Bytes → Option Envelope
  pub decode_received : Bytes → Option DisputeReceived

-- A message as SQS delivers it.
pub record Delivered : Type 0 where
  pub receipt_handle : ℕ
  pub body : Option Bytes

-- MaxMessages and WaitTime, as NewConsumer leaves them.
pub record Polling : Type 0 where
  pub max_messages : ℤ
  pub wait_time : ℤ

-- `NewConsumer`.
unfoldable pub new_consumer : Polling → Polling
new_consumer p = record {
  max_messages = if ltb_ℤ p.max_messages (pos 1) then pos 10 else p.max_messages;
  wait_time = if ltb_ℤ p.wait_time (pos 1) then pos 20 else p.wait_time;
}

-- What is to be done for a message: it cannot be handled, needs nothing, or has a deadline to be kept.
pub data Task : Type 0 where
  unhandled nothing_to_do : Task
  to_schedule : ℕ → ℕ → Task

unfoldable pub received_task : Option DisputeReceived → Task
received_task none = unhandled
received_task (some p) =
    if p.dispute_id == 0 || p.deadline_at == 0
    then unhandled
    else to_schedule p.dispute_id p.deadline_at

unfoldable pub envelope_task : Codec → Option Envelope → Task
unfolding received_task
envelope_task c none = unhandled
envelope_task c (some env) =
    if str_eq env.event_type "dispute.received"
    then received_task (c.decode_received env.payload)
    else nothing_to_do

-- `process` up to the call of Schedule.
unfoldable pub task_of : Codec → Delivered → Task
unfolding envelope_task
task_of c msg = elim msg.body [
  | none ↦ unhandled
  | some body ↦ envelope_task c (c.decode_envelope body)
]

abbrev is_ok : Result (Unit {0}) → Bool
is_ok (ok u) = true
is_ok (err e) = false

-- `process`: whether it returned without an error, and the index.
unfoldable pub process : Task → Fate → ZSet → Bool × ZSet
process unhandled redis z = (false, z)
process nothing_to_do redis z = (true, z)
process (to_schedule id at) redis z = (is_ok (schedule id at redis z).0, (schedule id at redis z).1)

-- DeleteMessage.
unfoldable pub delete : Fate → ℕ → List Delivered → List Delivered
delete fails handle queue = queue
delete works handle queue = filter_where (λ m. not (m.receipt_handle == handle)) queue
delete unseen handle queue = filter_where (λ m. not (m.receipt_handle == handle)) queue

-- The queue and the index.
pub record Station : Type 0 where
  pub queue : List Delivered
  pub index : ZSet

-- `handle`: the fates of the write to Redis and of the delete come with the message.
unfoldable pub handle : Codec → (Delivered × Fate × Fate) → Station → Station
unfolding process delete task_of
handle c (msg, redis, sqs) s =
    let (done, z) = process (task_of c msg) redis s.index in
    record { queue = if done then delete sqs msg.receipt_handle s.queue else s.queue; index = z }

-- The loop over the messages of one receive.
unfoldable pub handle_all : Codec → List (Delivered × Fate × Fate) → Station → Station
handle_all c [] s = s
handle_all c (m ∷ ms) s = handle_all c ms (handle c m s)
