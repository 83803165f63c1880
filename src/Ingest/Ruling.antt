-- ===== src/Ingest/Ruling.antt =====
-- internal/ingest/store.go: the network's rulings on represented disputes, written into Postgres.
pub mod Rows
use Prim.Native.String.{◌++◌ as append}
use dispute_router.Common.{
  ℕ, suc, String, Bool, true, false, not, ◌&&◌, ◌||◌, List, [], ◌∷◌, ◌++◌, Option, none, some,
  find_where, update_where, if◌then◌else◌, ◌==◌, str_eq,
}
use dispute_router.Common.Bytes.{Bytes, codes}
use dispute_router.Common.Int.{ℤ, pos, ltb_ℤ}
use dispute_router.Database.Schema.{
  Db, MerchantRow, ChargeRow, DisputeRow, DeliveryRow, DeliveryStatus, pending, processed, failed,
  Fields, text, number, key, instant,
}
use dispute_router.Database.Transaction.{
  Error, check_violation, driver_error, unknown_merchant, unknown_transaction, not_represented,
  Result, ok, err, Fate, sent, Session, Tx, ◌>>=◌, ◌>>◌, pure, statement, begin_func,
}
use dispute_router.Dispute.{
  State, received, represented, lost, is_resolved_state, state_eq, state_of, kind_of, Kind, alert,
  chargeback, other_kind,
}
use dispute_router.Events.{Event, record_event}
use dispute_router.Ingest.Event.{DisputeWebhook, RulingWebhook, is_valid_network, is_currency_code}
use dispute_router.Ingest.Store.{
  RecordResult, merchant_by_external_id, Recorded, Delivery, insert_delivery, mark_processed,
  mark_failed, is_dispute, is_duplicate, refused_with, accepted_as,
}
use dispute_router.Ledger
use dispute_router.Outbox
use dispute_router.Worker.Store.{moved}

unfoldable pub awaits_ruling : ℕ → String → DisputeRow → Bool
awaits_ruling merchant_id external_id d =
    is_dispute merchant_id external_id d && state_eq d.state represented

-- The CHECKs hold if the new state is one of those that have a resolved_at.
rule_row : ℕ → RulingWebhook → Session → Option DisputeRow → Result (Option DisputeRow × Session)
rule_row merchant_id e s none = ok (none, s)
rule_row merchant_id e s (some d) =
    if is_resolved_state (state_of e.event_data.outcome)
    then ok (
      some d,
      record s {
        db = record s.db {
          disputes =
              update_where (awaits_ruling merchant_id e.event_data.dispute_id)
                (moved (state_of e.event_data.outcome) true e.event_data.decided_at) s.db.disputes;
        };
      },
    )
    else err check_violation

-- UPDATE disputes ... WHERE merchant_id = $1 AND external_id = $2 AND state = 'represented' RETURNING ...
pub apply_ruling : ℕ → RulingWebhook → Tx (Option DisputeRow)
unfolding rule_row
apply_ruling merchant_id e = statement λ s.
    rule_row merchant_id e s
      (find_where (awaits_ruling merchant_id e.event_data.dispute_id) s.db.disputes)

pub ruling_event : ℕ → ℕ → RulingWebhook → Event
ruling_event dispute_id webhook_event_id e = record {
  dispute_id = dispute_id;
  from_state = some represented;
  to_state = state_of e.event_data.outcome;
  actor = "network";
  detail =
      ("source", text "webhook")
      ∷ ("webhook_event_id", key webhook_event_id)
      ∷ ("outcome", text e.event_data.outcome)
      ∷ ("note", text e.event_data.note)
      ∷ [];
  occurred_at = e.event_data.decided_at;
}

unfoldable pub ruling_entry : ℕ → RulingWebhook → DisputeRow → Ledger.Entry
ruling_entry merchant_id e d = record {
  dispute_id = d.id;
  merchant_id = merchant_id;
  amount_minor = d.amount_minor;
  currency = d.currency;
  at = e.event_data.decided_at;
}

-- if ruled == dispute.StateLost.
pub rule_funds : Bool → Ledger.Entry → Tx (Unit {0})
rule_funds true entry = Ledger.settle_loss entry "representment lost"
rule_funds false entry = Ledger.release_hold entry

pub ruling_message : ℕ → RulingWebhook → DisputeRow → Outbox.Entry
ruling_message merchant_id e d = record {
  aggregate_type = "dispute";
  aggregate_id = d.id;
  event_type = append "dispute." e.event_data.outcome;
  payload =
      ("dispute_id", key d.id)
      ∷ ("merchant_id", key merchant_id)
      ∷ ("outcome", text e.event_data.outcome)
      ∷ ("amount_minor", number d.amount_minor)
      ∷ ("currency", text d.currency)
      ∷ [];
}

-- `recordRuling` after its UPDATE.
pub after_ruling : Delivery → RulingWebhook → ℕ → Option DisputeRow → Tx Recorded
after_ruling d e id none = do
  mark_failed id (append "no represented dispute " e.event_data.dispute_id)
  pure (refused_with id not_represented)
after_ruling d e id (some row) = do
  record_event (ruling_event row.id id e)
  rule_funds (state_eq (state_of e.event_data.outcome) lost) (ruling_entry d.merchant.id e row)
  Outbox.insert (ruling_message d.merchant.id e row)
  mark_processed id
  pure (accepted_as id row.id)

-- `recordRuling` after the INSERT of the delivery.
pub after_ruling_delivery : Delivery → RulingWebhook → Option ℕ → Tx Recorded
after_ruling_delivery d e none = pure is_duplicate
after_ruling_delivery d e (some id) = do row ← apply_ruling d.merchant.id e; after_ruling d e id row

unfoldable pub ruling_tx : (Bytes → Bool) → Delivery → RulingWebhook → Tx Recorded
ruling_tx is_jsonb d e = do
  id ← insert_delivery is_jsonb d e.event_type e.id
  after_ruling_delivery d e id

-- `Store.recordRuling`.
unfoldable pub record_ruling :
    (Bytes → Bool) → Delivery → RulingWebhook → List Fate → ℕ → Db → Result Recorded × Db
record_ruling is_jsonb d e = begin_func (ruling_tx is_jsonb d e)
