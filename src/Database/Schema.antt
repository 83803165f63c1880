-- ===== src/Database/Schema.antt =====
-- The tables of db/migrations that the modelled code reads and writes, with the columns it uses.
-- Identity columns draw from one counter. Instants are nanoseconds, bigint amounts are integers.
use dispute_router.Common.{ℕ, String, Bool, Option, List}
use dispute_router.Common.Bytes.{Bytes}
use dispute_router.Common.Int.{ℤ}
use dispute_router.Dispute.{State, Kind}

-- A JSON object before it is encoded: what `map[string]any` holds here.
pub data Value : Type 0 where
  text : String → Value
  raw : Bytes → Value
  number : ℤ → Value
  key : ℕ → Value
  flag : Bool → Value
  instant : ℕ → Value
  state : State → Value
  kind : Kind → Value

abbrev pub Fields : Type 0
Fields = List (String × Value)

pub record MerchantRow : Type 0 where
  pub id : ℕ
  pub external_id : String
  pub currency : String
  pub auto_refund_ceiling_minor : Option ℤ

pub data ChargeStatus : Type 0 where
  captured partially_refunded fully_refunded : ChargeStatus

-- A row of `transactions`: a card charge.
pub record ChargeRow : Type 0 where
  pub id : ℕ
  pub merchant_id : ℕ
  pub external_id : String
  pub amount_minor : ℤ
  pub currency : String
  pub refunded_minor : ℤ
  pub status : ChargeStatus

pub record DisputeRow : Type 0 where
  pub id : ℕ
  pub merchant_id : ℕ
  pub transaction_id : ℕ
  pub external_id : String
  pub kind : Kind
  pub card_network : String
  pub reason_code : String
  pub amount_minor : ℤ
  pub currency : String
  pub state : State
  pub deadline_at : ℕ
  pub opened_at : ℕ
  pub resolved_at : Option ℕ
  pub version : ℕ
  pub cardholder_claim : Bytes

pub data AccountKind : Type 0 where
  settlement_clearing merchant_balance merchant_reserve : AccountKind
  disputes_payable fee_revenue dispute_losses : AccountKind

-- A row of `ledger_accounts`; the platform's own accounts have no merchant.
pub record AccountRow : Type 0 where
  pub id : ℕ
  pub merchant_id : Option ℕ
  pub kind : AccountKind
  pub currency : String

pub data Direction : Type 0 where
  debit credit : Direction

-- A row of `ledger_transactions`.
pub record JournalRow : Type 0 where
  pub id : ℕ
  pub external_ref : Bytes
  pub kind : String
  pub currency : String
  pub description : String
  pub occurred_at : ℕ
  pub metadata : Fields

-- A row of `ledger_entries`.
pub record LegRow : Type 0 where
  pub ledger_transaction_id : ℕ
  pub account_id : ℕ
  pub direction : Direction
  pub amount_minor : ℤ
  pub currency : String

-- A row of `dispute_events`.
pub record EventRow : Type 0 where
  pub dispute_id : ℕ
  pub from_state : Option State
  pub to_state : State
  pub actor : String
  pub detail : Fields
  pub occurred_at : ℕ

pub record OutboxRow : Type 0 where
  pub id : ℕ
  pub aggregate_type : String
  pub aggregate_id : ℕ
  pub event_type : String
  pub payload : Fields
  pub published_at : Option ℕ

pub data DeliveryStatus : Type 0 where
  pending processed failed : DeliveryStatus

-- A row of `webhook_events`.
pub record DeliveryRow : Type 0 where
  pub id : ℕ
  pub merchant_id : ℕ
  pub event_type : String
  pub idempotency_key : String
  pub payload : Bytes
  pub signature : String
  pub status : DeliveryStatus
  pub attempts : ℕ
  pub last_error : Option String
  pub processed_at : Option ℕ

-- `Outcome` of internal/agent/store.go, the CHECK on agent_runs.outcome.
pub data RunOutcome : Type 0 where
  drafted rejected insufficient_evidence budget_exceeded run_failed : RunOutcome

-- One element of agent_runs.findings.
pub record Finding : Type 0 where
  pub check : String
  pub quote : String
  pub why : String

-- The CHECK on agent_runs.recommendation.
pub data Recommendation : Type 0 where
  recommend_represent recommend_insufficient : Recommendation

-- A row of `agent_runs`: the columns that the drafting and the review read or write.
pub record RunRow : Type 0 where
  pub id : ℕ
  pub dispute_id : ℕ
  pub attempt : ℕ
  pub outcome : RunOutcome
  pub recommendation : Option Recommendation
  pub letter : Bytes
  pub cited_evidence : List String
  pub findings : List Finding
  pub cost_micros : ℕ
  pub review : Option String
  pub reviewed_by : Option String
  pub reviewed_at : Option ℕ

pub record Db : Type 0 where
  pub merchants : List MerchantRow
  pub charges : List ChargeRow
  pub disputes : List DisputeRow
  pub accounts : List AccountRow
  pub journals : List JournalRow
  pub legs : List LegRow
  pub events : List EventRow
  pub outbox : List OutboxRow
  pub deliveries : List DeliveryRow
  pub runs : List RunRow
  pub next_id : ℕ
