-- ===== src/Outbox.antt =====
-- internal/outbox: rows that commit with the change they announce, and the relay that publishes them.
-- `json.Marshal` of the payload maps does not fail, so its error branch has no counterpart.
pub mod Relay
use dispute_router.Common.{ℕ, suc, String, [], ◌∷◌, ◌++◌, none}
use dispute_router.Database.Schema.{Fields, OutboxRow}
use dispute_router.Database.Transaction.{ok, Tx, statement}

-- `Entry`.
pub record Entry : Type 0 where
  pub aggregate_type : String
  pub aggregate_id : ℕ
  pub event_type : String
  pub payload : Fields

abbrev pub outbox_row : ℕ → Entry → OutboxRow
outbox_row id e = record {
  id = id;
  aggregate_type = e.aggregate_type;
  aggregate_id = e.aggregate_id;
  event_type = e.event_type;
  payload = e.payload;
  published_at = none;
}

-- `Insert`. The table is kept in the order of its ids.
unfoldable pub insert : Entry → Tx (Unit {0})
insert e = statement λ s. ok (
  tt,
  record s {
    db = record s.db {
      outbox = s.db.outbox ++ (outbox_row s.db.next_id e ∷ []);
      next_id = suc s.db.next_id;
    };
  },
)
