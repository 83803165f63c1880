-- ===== src/Worker/Store.antt =====
-- internal/worker/store.go: the worker's read and write path into Postgres.
-- `version` is an INTEGER whose increments stay far below 2^31.
pub mod Steps
pub mod Effect
pub mod Once
pub mod Covered
pub mod Rows
use Prim.Native.String.{◌++◌ as append}
use dispute_router.Common.{
  ℕ, suc, String, Bool, true, false, not, ◌&&◌, ◌||◌, List, [], ◌∷◌, map, Option, none, some,
  find_where, filter_where, update_where, if◌then◌else◌, ◌==◌,
}
use dispute_router.Common.Int.{ℤ, pos, ◌+ℤ◌, ◌-ℤ◌, leb_ℤ}
use dispute_router.Database.Schema.{
  Db, MerchantRow, DisputeRow, ChargeRow, partially_refunded, fully_refunded, Fields, text, number,
  key, state, kind,
}
use dispute_router.Database.Transaction.{
  check_violation, stale_candidate, not_found, changes_no_state, driver_error, Result, ok, err,
  Fate, sent, Session, Tx, ◌>>=◌, ◌>>◌, pure, throw, statement, begin_func,
}
use dispute_router.Dispute.{
  State, received, resolving, draft_ready, represented, refunded, won, lost, expired, unlisted,
  is_resolved_state, state_eq, Kind, alert, chargeback, other_kind,
}
use dispute_router.Events.{Event, record_event}
use dispute_router.Ledger
use dispute_router.Outbox
use dispute_router.Worker.Rules.{Action, refund, close, escalate, expire, skip, Decision, Candidate}

-- `loaded`.
pub record Loaded : Type 0 where
  pub candidate : Candidate
  pub open candidate use *
  pub merchant_id : ℕ
  pub version : ℕ

abbrev is_some {ℓ} : {A : Type ℓ} → Option A → Bool
is_some none = false
is_some (some a) = true

loaded_row : DisputeRow → MerchantRow → ChargeRow → Loaded
loaded_row d m t = record {
  candidate = record {
    id = d.id;
    kind = d.kind;
    state = d.state;
    reason_code = d.reason_code;
    amount_minor = d.amount_minor;
    currency = d.currency;
    deadline_at = d.deadline_at;
    resolved = is_some d.resolved_at;
    auto_refund_ceiling_minor = m.auto_refund_ceiling_minor;
    refundable_remaining_minor = t.amount_minor -ℤ t.refunded_minor;
  };
  merchant_id = d.merchant_id;
  version = d.version;
}

-- The inner joins of the SELECT.
join_rows : Db → Option DisputeRow → Result Loaded
join_rows db none = err not_found
join_rows db (some d) = elim (find_where (λ m. m.id == d.merchant_id) db.merchants) [
  | none ↦ err not_found
  | some m ↦ elim (find_where (λ t. t.id == d.transaction_id) db.charges) [
    | none ↦ err not_found
    | some t ↦ ok (loaded_row d m t)
  ]
]

-- `Store.load`: one query, outside any transaction.
unfoldable pub load : ℕ → Fate → Db → Result Loaded
unfolding join_rows loaded_row
load dispute_id fate db =
    sent fate (join_rows db (find_where (λ d. d.id == dispute_id) db.disputes))

abbrev is_open : State → Bool
is_open received = true
is_open resolving = true
is_open draft_ready = true
is_open _ = false

-- `Store.OpenDeadlines`. The rows of a map from id to deadline; ids are unique.
unfoldable pub open_deadlines : Fate → Db → Result (List (ℕ × ℕ))
open_deadlines fate db =
    sent fate
      (ok (map (λ d. (d.id, d.deadline_at)) (filter_where (λ d. is_open d.state) db.disputes)))

is_listed : State → Bool
is_listed (unlisted s) = false
is_listed _ = true

abbrev bool_eq : Bool → Bool → Bool
bool_eq true b = b
bool_eq false b = not b

-- The CHECKs on disputes.state and disputes_resolved_has_timestamp.
dispute_check : DisputeRow → Bool
unfolding is_listed
dispute_check d = is_listed d.state && bool_eq (is_resolved_state d.state) (is_some d.resolved_at)

unfoldable pub is_version : Loaded → DisputeRow → Bool
is_version l d = d.id == l.id && d.version == l.version

-- SET state, version, resolved_at.
unfoldable pub moved : State → Bool → ℕ → DisputeRow → DisputeRow
moved to resolved now d = record d {
  state = to;
  version = suc d.version;
  resolved_at = if resolved then some now else d.resolved_at;
}

update_row : Loaded → State → Bool → Session → Option DisputeRow → Result (ℕ × Session)
unfolding moved dispute_check
update_row l to resolved s none = err stale_candidate
update_row l to resolved s (some d) =
    if dispute_check (moved to resolved s.now d)
    then ok (
      s.now,
      record s {
        db = record s.db {
          disputes = update_where (is_version l) (moved to resolved s.now) s.db.disputes;
        };
      },
    )
    else err check_violation

-- The UPDATE with the version check; it returns the transaction's clock.
pub update_dispute : Loaded → State → Bool → Tx ℕ
unfolding update_row
update_dispute l to resolved =
    statement λ s. update_row l to resolved s (find_where (is_version l) s.db.disputes)

pub add_refund : ℤ → ChargeRow → ChargeRow
add_refund amount t = record t {
  refunded_minor = t.refunded_minor +ℤ amount;
  status =
      if leb_ℤ t.amount_minor (t.refunded_minor +ℤ amount)
      then fully_refunded
      else partially_refunded;
}

-- The CHECKs on refunded_minor.
pub charge_check : ChargeRow → Bool
charge_check t = leb_ℤ (pos 0) t.refunded_minor && leb_ℤ t.refunded_minor t.amount_minor

pub all_check : List ChargeRow → Bool
all_check [] = true
all_check (t ∷ ts) = charge_check t && all_check ts

refund_charge : ℤ → Session → Option DisputeRow → Result (Unit {0} × Session)
unfolding add_refund all_check charge_check
refund_charge amount s none = ok (tt, s)
refund_charge amount s (some d) =
    let of_dispute = λ (t : ChargeRow). t.id == d.transaction_id in
    if all_check (map (add_refund amount) (filter_where of_dispute s.db.charges))
    then ok (
      tt,
      record s {
        db = record s.db { charges = update_where of_dispute (add_refund amount) s.db.charges };
      },
    )
    else err check_violation

-- `addRefundToTransaction`.
add_refund_to_transaction : Loaded → Tx (Unit {0})
unfolding refund_charge
add_refund_to_transaction l =
    statement λ s. refund_charge l.amount_minor s (find_where (λ d. d.id == l.id) s.db.disputes)

state_text : State → String
state_text received = "received"
state_text resolving = "resolving"
state_text draft_ready = "draft_ready"
state_text represented = "represented"
state_text refunded = "refunded"
state_text won = "won"
state_text lost = "lost"
state_text expired = "expired"
state_text (unlisted s) = s

action_text : Action → String
action_text refund = "refund"
action_text close = "close"
action_text escalate = "escalate"
action_text expire = "expire"
action_text skip = "skip"

pub decision_event : Loaded → Decision → State → String → Event
unfolding action_text
decision_event l d to worker_id = record {
  dispute_id = l.id;
  from_state = some l.state;
  to_state = to;
  actor = append "worker:" worker_id;
  detail =
      ("action", text (action_text d.action))
      ∷ ("reason", text d.reason)
      ∷ ("worker", text worker_id)
      ∷ [];
  occurred_at = 0;
}

unfoldable pub ledger_entry : Loaded → ℕ → Ledger.Entry
ledger_entry l at = record {
  dispute_id = l.id;
  merchant_id = l.merchant_id;
  amount_minor = l.amount_minor;
  currency = l.currency;
  at = at;
}

pub decision_message : Loaded → Decision → State → Outbox.Entry
unfolding action_text state_text
decision_message l d to = record {
  aggregate_type = "dispute";
  aggregate_id = l.id;
  event_type = append "dispute." (state_text to);
  payload =
      ("dispute_id", key l.id)
      ∷ ("merchant_id", key l.merchant_id)
      ∷ ("from_state", state l.state)
      ∷ ("to_state", state to)
      ∷ ("action", text (action_text d.action))
      ∷ ("reason", text d.reason)
      ∷ ("amount_minor", number l.amount_minor)
      ∷ ("currency", text l.currency)
      ∷ [];
}

expire_kind : Kind → Ledger.Entry → Tx (Unit {0})
expire_kind chargeback entry =
    Ledger.settle_loss entry "response window closed with no representment"
expire_kind alert entry = pure tt
expire_kind (other_kind k) entry = pure tt

-- `switch decision.Action`.
pub move_money : Action → Loaded → Ledger.Entry → Tx (Unit {0})
unfolding expire_kind add_refund_to_transaction
move_money refund l entry = do Ledger.refund entry l.reason_code; add_refund_to_transaction l
move_money close l entry = pure tt
move_money expire l entry = expire_kind l.kind entry
move_money escalate l entry = pure tt
move_money skip l entry = pure tt

apply_to : Option State → Loaded → Decision → String → Tx (Unit {0})
apply_to none l d worker_id = throw changes_no_state
apply_to (some to) l d worker_id = do
  at ← update_dispute l to (not (state_eq to represented))
  record_event (decision_event l d to worker_id)
  move_money d.action l (ledger_entry l at)
  Outbox.insert (decision_message l d to)

-- `applyTx`.
unfoldable pub apply_tx : Loaded → Decision → String → Tx (Unit {0})
unfolding apply_to
apply_tx l d worker_id = apply_to d.to_state l d worker_id

-- `Store.apply`.
unfoldable pub apply : Loaded → Decision → String → List Fate → ℕ → Db → Result (Unit {0}) × Db
apply l d worker_id = begin_func (apply_tx l d worker_id)
