-- ===== src/Events.antt =====
-- internal/events/events.go: the audit trail of a dispute.
-- `json.Marshal` of the detail maps does not fail, so its error branch has no counterpart.
use dispute_router.Common.{ℕ, zero, suc, String, Option, ◌∷◌}
use dispute_router.Database.Schema.{Fields, EventRow}
use dispute_router.Database.Transaction.{ok, Tx, statement}
use dispute_router.Dispute.{State}

-- `Event`. An empty `FromState` is `none`.
pub record Event : Type 0 where
  pub dispute_id : ℕ
  pub from_state : Option State
  pub to_state : State
  pub actor : String
  pub detail : Fields
  pub occurred_at : ℕ

-- coalesce($6, now()): the zero time is written as NULL.
abbrev pub occurred : ℕ → ℕ → ℕ
occurred zero now = now
occurred (suc t) now = suc t

abbrev pub event_row : ℕ → Event → EventRow
event_row now e = record {
  dispute_id = e.dispute_id;
  from_state = e.from_state;
  to_state = e.to_state;
  actor = e.actor;
  detail = e.detail;
  occurred_at = occurred e.occurred_at now;
}

-- `Record`.
unfoldable pub record_event : Event → Tx (Unit {0})
record_event e =
    statement
      λ s. ok (tt, record s { db = record s.db { events = event_row s.now e ∷ s.db.events } })
