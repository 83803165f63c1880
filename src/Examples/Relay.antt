-- ===== src/Examples/Relay.antt =====
-- The theorems on the outbox relay, at a table of three rows.
use dispute_router.Common.{
  ℕ, zero, suc, List, ◌≡◌, refl, false, [], ◌∷◌, none, some, arith, ◌==◌, not, filter_where,
}
use dispute_router.Database.Schema.{OutboxRow}
use dispute_router.Database.Transaction.{works, unseen}
use dispute_router.Outbox.Relay.{Feed, Pass, drain_once, drain_loop, unpublished}
use dispute_router.Outbox.Relay.Delivery.{Delivered, drain_once-Delivered}
use dispute_router.Outbox.Relay.Progress.{drain_loop-stops, backlog, arriving}

abbrev message : ℕ → OutboxRow
message id = record {
  id = id;
  aggregate_type = "dispute";
  aggregate_id = 7;
  event_type = "dispute.received";
  payload = [];
  published_at = none;
}

abbrev feed : Feed
feed = record { outbox = message 1 ∷ message 2 ∷ message 3 ∷ []; queue = [] }

-- The commit's answer is lost, and the publisher refuses the message `bad`.
abbrev pass : ℕ → Pass
pass bad = record {
  begin_fate = works;
  select_fate = works;
  mark_fate = works;
  commit_fate = unseen;
  now = 9;
  locked = λ id. false;
  publish = λ row. not (row.id == bad);
}

drain_once-Delivered_example : Delivered (drain_once (pass 3) 10 feed).1
unfolding unpublished
drain_once-Delivered_example = drain_once-Delivered (pass 3) 10 feed (refl, (refl, (refl, tt)))

-- One row comes in during the loop.
abbrev arrivals : ℕ → List OutboxRow
arrivals zero = []
arrivals (suc zero) = []
arrivals (suc (suc zero)) = message 4 ∷ []
arrivals (suc (suc (suc n))) = []

drain_loop-stops_example :
    (feed' : Feed) × (drain_loop 5 (λ fuel. pass 0) arrivals 2 feed ≡ some feed')
unfolding backlog unpublished filter_where arriving
drain_loop-stops_example =
    drain_loop-stops 5 (λ fuel. pass 0) arrivals 2 feed (omega arith) (omega arith)
