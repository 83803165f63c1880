-- ===== src/Ingest/Store.antt =====
-- internal/ingest/store.go: the write path into Postgres. `is_jsonb` says which bodies the cast to jsonb
-- takes; it is the database's, and a parameter. `json.Marshal` of the maps does not fail.
pub mod Rows
pub mod Keys
pub mod Kept
pub mod Once
use Prim.Native.String.{◌++◌ as append}
use dispute_router.Common.{
  ℕ, suc, String, Bool, true, false, not, ◌&&◌, ◌||◌, List, [], ◌∷◌, ◌++◌, Option, none, some,
  find_where, update_where, if◌then◌else◌, ◌==◌, str_eq,
}
use dispute_router.Common.Bytes.{Bytes, codes}
use dispute_router.Common.Int.{ℤ, pos, ltb_ℤ}
use dispute_router.Database.Schema.{
  Db, MerchantRow, ChargeRow, DisputeRow, DeliveryRow, DeliveryStatus, pending, processed, failed,
  Fields, text, number, key, instant,
}
use dispute_router.Database.Transaction.{
  Error, check_violation, driver_error, unknown_merchant, unknown_transaction, not_represented,
  Result, ok, err, Fate, sent, Session, Tx, ◌>>=◌, ◌>>◌, pure, statement, begin_func,
}
use dispute_router.Dispute.{
  State, received, represented, lost, is_resolved_state, state_eq, state_of, kind_of, Kind, alert,
  chargeback, other_kind,
}
use dispute_router.Events.{Event, record_event}
use dispute_router.Ingest.Event.{DisputeWebhook, RulingWebhook, is_valid_network, is_currency_code}
use dispute_router.Ledger
use dispute_router.Outbox
use dispute_router.Worker.Store.{moved}

-- `Store.MerchantByExternalID`; external ids of merchants are unique.
unfoldable pub merchant_by_external_id : String → Fate → Db → Result MerchantRow
merchant_by_external_id external_id fate db =
    sent fate (elim (find_where (λ m. str_eq m.external_id external_id) db.merchants) [
      | none ↦ err unknown_merchant
      | some m ↦ ok m
    ])

-- `recordResult`; an id that is not set is 0.
pub record RecordResult : Type 0 where
  pub webhook_event_id : ℕ
  pub dispute_id : ℕ
  pub duplicate : Bool

-- What a transaction's body leaves in `result` and `outcome`.
abbrev pub Recorded : Type 0
Recorded = RecordResult × Option Error

-- A delivery as it arrives.
pub record Delivery : Type 0 where
  pub merchant : MerchantRow
  pub raw : Bytes
  pub signature : String

unfoldable pub has_key : String → DeliveryRow → Bool
has_key idempotency_key row = str_eq row.idempotency_key idempotency_key

abbrev pub delivery_row : ℕ → Delivery → String → String → DeliveryRow
delivery_row id d event_type idempotency_key = record {
  id = id;
  merchant_id = d.merchant.id;
  event_type = event_type;
  idempotency_key = idempotency_key;
  payload = d.raw;
  signature = d.signature;
  status = pending;
  attempts = 0;
  last_error = none;
  processed_at = none;
}

-- The INSERT once the cast has passed; the row that it was given conflicts with is `some`.
pub add_delivery : Delivery → String → String → Session → Option DeliveryRow → Option ℕ × Session
add_delivery d event_type idempotency_key s (some old) = (none, s)
add_delivery d event_type idempotency_key s none = (
  some s.db.next_id,
  record s {
    db = record s.db {
      deliveries = s.db.deliveries ++ (delivery_row s.db.next_id d event_type idempotency_key ∷ []);
      next_id = suc s.db.next_id;
    };
  },
)

-- `insertDelivery`; `none` is a duplicate.
pub insert_delivery : (Bytes → Bool) → Delivery → String → String → Tx (Option ℕ)
unfolding add_delivery
insert_delivery is_jsonb d event_type idempotency_key = statement λ s.
    if is_jsonb d.raw
    then ok (
        add_delivery d event_type idempotency_key s
          (find_where (has_key idempotency_key) s.db.deliveries))
    else err driver_error

-- UPDATE webhook_events ... WHERE id = $1.
set_delivery : ℕ → (ℕ → DeliveryRow → DeliveryRow) → Tx (Unit {0})
set_delivery id change = statement λ s. ok (
  tt,
  record s {
    db = record s.db {
      deliveries = update_where (λ row. row.id == id) (change s.now) s.db.deliveries;
    };
  },
)

-- `markProcessed`.
pub mark_processed : ℕ → Tx (Unit {0})
unfolding set_delivery
mark_processed id = set_delivery id λ now row. record row {
  status = processed;
  processed_at = some now;
  attempts = suc row.attempts;
}

-- `markFailed`.
pub mark_failed : ℕ → String → Tx (Unit {0})
unfolding set_delivery
mark_failed id reason = set_delivery id λ now row. record row {
  status = failed;
  last_error = some reason;
  attempts = suc row.attempts;
  processed_at = some now;
}

unfoldable pub is_charge : ℕ → String → ChargeRow → Bool
is_charge merchant_id external_id t =
    t.merchant_id == merchant_id && str_eq t.external_id external_id

-- SELECT id FROM transactions WHERE merchant_id = $1 AND external_id = $2.
pub find_charge : ℕ → String → Tx (Option ChargeRow)
find_charge merchant_id external_id =
    statement λ s. ok (find_where (is_charge merchant_id external_id) s.db.charges, s)

abbrev is_listed_kind : Kind → Bool
is_listed_kind alert = true
is_listed_kind chargeback = true
is_listed_kind (other_kind k) = false

unfoldable pub is_dispute : ℕ → String → DisputeRow → Bool
is_dispute merchant_id external_id d =
    d.merchant_id == merchant_id && str_eq d.external_id external_id

unfoldable pub dispute_row : ℕ → ℕ → ℕ → DisputeWebhook → DisputeRow
dispute_row id merchant_id transaction_id e = record {
  id = id;
  merchant_id = merchant_id;
  transaction_id = transaction_id;
  external_id = e.event_data.dispute_id;
  kind = kind_of e.event_data.kind;
  card_network = e.event_data.card_network;
  reason_code = e.event_data.reason_code;
  amount_minor = e.event_data.amount_minor;
  currency = e.event_data.currency;
  state = received;
  deadline_at = e.event_data.respond_by;
  opened_at = e.event_data.opened_at;
  resolved_at = none;
  version = 0;
  cardholder_claim = e.event_data.cardholder_claim;
}

-- The CHECKs on a new row.
new_dispute_check : DisputeWebhook → Bool
new_dispute_check e =
    is_listed_kind (kind_of e.event_data.kind)
    && is_valid_network e.event_data.card_network
    && ltb_ℤ (pos 0) e.event_data.amount_minor
    && is_currency_code (codes e.event_data.currency)

-- The INSERT; the row that it conflicts with is `some`, and the CHECKs come first. The table is kept in
-- the order of its ids.
add_dispute : ℕ → ℕ → DisputeWebhook → Session → Option DisputeRow → Result (Option ℕ × Session)
unfolding new_dispute_check
add_dispute merchant_id transaction_id e s old =
    if new_dispute_check e
    then ok (elim old [
      | some d ↦ (none, s)
      | none ↦ (
        some s.db.next_id,
        record s {
          db = record s.db {
            disputes =
                s.db.disputes ++ (dispute_row s.db.next_id merchant_id transaction_id e ∷ []);
            next_id = suc s.db.next_id;
          };
        },
      )
    ])
    else err check_violation

-- INSERT INTO disputes ... ON CONFLICT (merchant_id, external_id) DO NOTHING RETURNING id.
pub insert_dispute : ℕ → ℕ → DisputeWebhook → Tx (Option ℕ)
unfolding add_dispute
insert_dispute merchant_id transaction_id e = statement λ s.
    add_dispute merchant_id transaction_id e s
      (find_where (is_dispute merchant_id e.event_data.dispute_id) s.db.disputes)

unfoldable pub held_entry : ℕ → ℕ → DisputeWebhook → Ledger.Entry
held_entry dispute_id merchant_id e = record {
  dispute_id = dispute_id;
  merchant_id = merchant_id;
  amount_minor = e.event_data.amount_minor;
  currency = e.event_data.currency;
  at = e.event_data.opened_at;
}

-- A chargeback's funds are held; an alert moves nothing.
pub hold_funds : Kind → ℕ → ℕ → DisputeWebhook → Tx (Unit {0})
hold_funds chargeback dispute_id merchant_id e =
    Ledger.hold (held_entry dispute_id merchant_id e) e.event_data.reason_code
hold_funds alert dispute_id merchant_id e = pure tt
hold_funds (other_kind k) dispute_id merchant_id e = pure tt

pub received_event : ℕ → ℕ → DisputeWebhook → Event
received_event dispute_id webhook_event_id e = record {
  dispute_id = dispute_id;
  from_state = none;
  to_state = received;
  actor = "system";
  detail =
      ("source", text "webhook")
      ∷ ("webhook_event_id", key webhook_event_id)
      ∷ ("reason_code", text e.event_data.reason_code)
      ∷ ("kind", text e.event_data.kind)
      ∷ [];
  occurred_at = e.event_data.opened_at;
}

pub received_message : ℕ → ℕ → DisputeWebhook → Outbox.Entry
received_message dispute_id merchant_id e = record {
  aggregate_type = "dispute";
  aggregate_id = dispute_id;
  event_type = "dispute.received";
  payload =
      ("dispute_id", key dispute_id)
      ∷ ("merchant_id", key merchant_id)
      ∷ ("kind", text e.event_data.kind)
      ∷ ("amount_minor", number e.event_data.amount_minor)
      ∷ ("currency", text e.event_data.currency)
      ∷ ("deadline_at", instant e.event_data.respond_by)
      ∷ [];
}

abbrev pub is_duplicate : Recorded
is_duplicate = (record { webhook_event_id = 0; dispute_id = 0; duplicate = true }, none)

abbrev pub refused_with : ℕ → Error → Recorded
refused_with id e = (record { webhook_event_id = id; dispute_id = 0; duplicate = false }, some e)

abbrev pub accepted_as : ℕ → ℕ → Recorded
accepted_as id dispute_id =
    (record { webhook_event_id = id; dispute_id = dispute_id; duplicate = false }, none)

-- `record` after the INSERT of the dispute.
pub after_dispute : Delivery → DisputeWebhook → ℕ → Option ℕ → Tx Recorded
after_dispute d e id none = do
  mark_processed id
  pure (record { webhook_event_id = id; dispute_id = 0; duplicate = true }, none)
after_dispute d e id (some dispute_id) = do
  hold_funds (kind_of e.event_data.kind) dispute_id d.merchant.id e
  record_event (received_event dispute_id id e)
  Outbox.insert (received_message dispute_id d.merchant.id e)
  mark_processed id
  pure (accepted_as id dispute_id)

-- `record` after the SELECT of the charge.
pub after_charge : Delivery → DisputeWebhook → ℕ → Option ChargeRow → Tx Recorded
after_charge d e id none = do
  mark_failed id (append "unknown transaction " e.event_data.transaction_id)
  pure (refused_with id unknown_transaction)
after_charge d e id (some t) = do
  dispute_id ← insert_dispute d.merchant.id t.id e
  after_dispute d e id dispute_id

-- `record` after the INSERT of the delivery.
pub after_delivery : Delivery → DisputeWebhook → Option ℕ → Tx Recorded
after_delivery d e none = pure is_duplicate
after_delivery d e (some id) = do
  t ← find_charge d.merchant.id e.event_data.transaction_id
  after_charge d e id t

unfoldable pub record_tx : (Bytes → Bool) → Delivery → DisputeWebhook → Tx Recorded
record_tx is_jsonb d e = do id ← insert_delivery is_jsonb d e.event_type e.id; after_delivery d e id

-- `Store.record`.
unfoldable pub record_dispute :
    (Bytes → Bool) → Delivery → DisputeWebhook → List Fate → ℕ → Db → Result Recorded × Db
record_dispute is_jsonb d e = begin_func (record_tx is_jsonb d e)
