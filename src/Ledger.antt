-- ===== src/Ledger.antt =====
-- internal/ledger/postings.go: the journal entries that this platform posts.
-- `json.Marshal` of these metadata maps does not fail, so its error branch has no counterpart.
pub mod Balance
pub mod Reference
pub mod Missing
pub mod Legs
pub mod Frame
use dispute_router.Common.{
  ℕ, suc, String, Bool, true, false, ◌&&◌, ◌||◌, List, [], ◌∷◌, ◌++◌, map, Option, none, some,
  filter_where, ◌==◌, str_eq,
}
use dispute_router.Common.Bytes.{Bytes, codes, decimal, bytes_eq}
use dispute_router.Common.Int.{ℤ, pos, ltb_ℤ}
use dispute_router.Database.Schema.{
  AccountKind, settlement_clearing, merchant_balance, merchant_reserve, disputes_payable,
  fee_revenue, dispute_losses, AccountRow, Direction, debit, credit, JournalRow, LegRow, text,
  number, Fields,
}
use dispute_router.Database.Transaction.{
  check_violation, unique_violation, Result, ok, err, Session, Tx, ◌>>=◌, ◌>>◌, pure, statement,
}

abbrev pub chargeback_fee_minor : ℤ
chargeback_fee_minor = pos 1500

-- `Entry`.
pub record Entry : Type 0 where
  pub dispute_id : ℕ
  pub merchant_id : ℕ
  pub amount_minor : ℤ
  pub currency : String
  pub at : ℕ

-- `ref`: fmt.Sprintf("dispute:%d:%s", disputeID, kind).
unfoldable pub external_ref_of : ℕ → Bytes → Bytes
external_ref_of dispute_id kind = codes "dispute:" ++ (decimal dispute_id ++ (b':' ∷ kind))

-- `posting`.
pub record Posting : Type 0 where
  pub account : AccountKind
  pub merchant_scoped : Bool
  pub direction : Direction
  pub amount_minor : ℤ

-- `journal`.
pub record Journal : Type 0 where
  pub external_ref : Bytes
  pub kind : String
  pub description : String
  pub metadata : Fields
  pub postings : List Posting

abbrev pub journal_row : ℕ → Entry → Journal → JournalRow
journal_row id e j = record {
  id = id;
  external_ref = j.external_ref;
  kind = j.kind;
  currency = e.currency;
  description = j.description;
  occurred_at = e.at;
  metadata = j.metadata;
}

unfoldable pub has_ref : Bytes → List JournalRow → Bool
has_ref r [] = false
has_ref r (row ∷ rows) = bytes_eq row.external_ref r || has_ref r rows

-- INSERT INTO ledger_transactions ... RETURNING id; the flag says that its unique key is taken.
insert_journal_row : Bool → Entry → Journal → Session → Result (ℕ × Session)
insert_journal_row true e j s = err unique_violation
insert_journal_row false e j s = ok (
  s.db.next_id,
  record s {
    db = record s.db {
      journals = journal_row s.db.next_id e j ∷ s.db.journals;
      next_id = suc s.db.next_id;
    };
  },
)

pub insert_journal : Entry → Journal → Tx ℕ
unfolding insert_journal_row
insert_journal e j = statement λ s. insert_journal_row (has_ref j.external_ref s.db.journals) e j s

-- The WHERE clause of either INSERT ... SELECT.
owns : Bool → ℕ → Option ℕ → Bool
owns true merchant (some m) = m == merchant
owns true merchant none = false
owns false merchant (some m) = false
owns false merchant none = true

account_kind_eq : AccountKind → AccountKind → Bool
account_kind_eq settlement_clearing settlement_clearing = true
account_kind_eq merchant_balance merchant_balance = true
account_kind_eq merchant_reserve merchant_reserve = true
account_kind_eq disputes_payable disputes_payable = true
account_kind_eq fee_revenue fee_revenue = true
account_kind_eq dispute_losses dispute_losses = true
account_kind_eq _ _ = false

unfoldable pub selects : Entry → AccountKind → Bool → AccountRow → Bool
unfolding owns account_kind_eq
selects e kind scoped a =
    owns scoped e.merchant_id a.merchant_id
    && (account_kind_eq a.kind kind && str_eq a.currency e.currency)

unfoldable pub leg_row : ℕ → Entry → Posting → AccountRow → LegRow
leg_row id e p a = record {
  ledger_transaction_id = id;
  account_id = a.id;
  direction = p.direction;
  amount_minor = p.amount_minor;
  currency = e.currency;
}

-- The rows go in if there are none or the CHECK (amount_minor > 0) holds; each fires the trigger.
insert_leg_rows : Bool → ℕ → List LegRow → Session → Result (Unit {0} × Session)
insert_leg_rows positive id [] s = ok (tt, s)
insert_leg_rows false id (row ∷ rows) s = err check_violation
insert_leg_rows true id (row ∷ rows) s = ok (
  tt,
  record s {
    db = record s.db { legs = row ∷ (rows ++ s.db.legs) };
    pending = id ∷ (map (λ _. id) rows ++ s.pending);
  },
)

insert_leg : ℕ → Entry → Posting → Tx (Unit {0})
unfolding insert_leg_rows
insert_leg id e p = statement λ s.
    insert_leg_rows (ltb_ℤ (pos 0) p.amount_minor) id
      (map (leg_row id e p) (filter_where (selects e p.account p.merchant_scoped) s.db.accounts)) s

insert_legs : ℕ → Entry → List Posting → Tx (Unit {0})
insert_legs id e [] = pure tt
insert_legs id e (p ∷ ps) = do insert_leg id e p; insert_legs id e ps

-- `write`.
unfoldable pub write : Entry → Journal → Tx (Unit {0})
unfolding insert_journal insert_leg insert_legs
write e j = do id ← insert_journal e j; insert_legs id e j.postings

leg : AccountKind → Bool → Direction → ℤ → Posting
leg account scoped direction amount = record {
  account = account;
  merchant_scoped = scoped;
  direction = direction;
  amount_minor = amount;
}

unfoldable pub hold_journal : Entry → String → Journal
unfolding leg
hold_journal e reason_code = record {
  external_ref = external_ref_of e.dispute_id (codes "hold");
  kind = "chargeback";
  description = "funds held pending the network's decision";
  metadata = ("reason_code", text reason_code) ∷ [];
  postings =
      leg merchant_balance true debit e.amount_minor
      ∷ leg disputes_payable true credit e.amount_minor
      ∷ [];
}

-- `Hold`.
unfoldable pub hold : Entry → String → Tx (Unit {0})
hold e reason_code = write e (hold_journal e reason_code)

unfoldable pub release_journal : Entry → Journal
unfolding leg
release_journal e = record {
  external_ref = external_ref_of e.dispute_id (codes "release");
  kind = "representment_won";
  description = "representment won, hold released";
  metadata = [];
  postings =
      leg disputes_payable true debit e.amount_minor
      ∷ leg merchant_balance true credit e.amount_minor
      ∷ [];
}

-- `ReleaseHold`.
unfoldable pub release_hold : Entry → Tx (Unit {0})
release_hold e = write e (release_journal e)

unfoldable pub loss_journal : Entry → String → Journal
unfolding leg
loss_journal e why = record {
  external_ref = external_ref_of e.dispute_id (codes "chargeback");
  kind = "representment_lost";
  description = why;
  metadata = ("fee_minor", number chargeback_fee_minor) ∷ [];
  postings =
      leg disputes_payable true debit e.amount_minor
      ∷ leg settlement_clearing false credit e.amount_minor
      ∷ leg merchant_balance true debit chargeback_fee_minor
      ∷ leg fee_revenue false credit chargeback_fee_minor
      ∷ [];
}

-- `SettleLoss`.
unfoldable pub settle_loss : Entry → String → Tx (Unit {0})
settle_loss e why = write e (loss_journal e why)

unfoldable pub refund_journal : Entry → String → Journal
unfolding leg
refund_journal e reason_code = record {
  external_ref = external_ref_of e.dispute_id (codes "refund");
  kind = "refund";
  description = "auto-refund inside the alert window";
  metadata = ("reason_code", text reason_code) ∷ [];
  postings =
      leg merchant_balance true debit e.amount_minor
      ∷ leg settlement_clearing false credit e.amount_minor
      ∷ [];
}

-- `Refund`.
unfoldable pub refund : Entry → String → Tx (Unit {0})
refund e reason_code = write e (refund_journal e reason_code)
