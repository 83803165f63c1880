-- ===== src/Examples/Sample.antt =====
-- One merchant, one charge, an open alert and an open chargeback on it, and the four accounts.
use dispute_router.Common.{ℕ, ◌*◌, false, List, [], ◌∷◌, none, some}
use dispute_router.Common.Bytes.{codes}
use dispute_router.Common.Int.{pos}
use dispute_router.Database.Schema.{
  Db, MerchantRow, ChargeRow, captured, DisputeRow, AccountRow, settlement_clearing,
  merchant_balance, disputes_payable, fee_revenue,
}
use dispute_router.Database.Transaction.{Session, session}
use dispute_router.Dispute.{received, alert, chargeback}
use dispute_router.Ledger.{Entry}
use dispute_router.Worker.Rules.{Candidate}
use dispute_router.Worker.Store.{Loaded}
use dispute_router.Worker.Pool.{Options, Round, World}
use dispute_router.Database.Transaction.{works}

abbrev pub second : ℕ
second = 1000000000

abbrev pub merchant : MerchantRow
merchant = record {
  id = 1;
  external_id = "m_1";
  currency = "USD";
  auto_refund_ceiling_minor = some (pos 10000);
}

abbrev pub charge : ChargeRow
charge = record {
  id = 5;
  merchant_id = 1;
  external_id = "tx_5";
  amount_minor = pos 5000;
  currency = "USD";
  refunded_minor = pos 0;
  status = captured;
}

abbrev pub open_alert : DisputeRow
open_alert = record {
  id = 7;
  merchant_id = 1;
  transaction_id = 5;
  external_id = "dp_7";
  kind = alert;
  card_network = "visa";
  reason_code = "13.1";
  amount_minor = pos 2000;
  currency = "USD";
  state = received;
  deadline_at = 100 * second;
  opened_at = 10 * second;
  resolved_at = none;
  version = 3;
  cardholder_claim = [];
}

abbrev pub open_chargeback : DisputeRow
open_chargeback = record open_alert { id = 8; external_id = "dp_8"; kind = chargeback; version = 0 }

abbrev pub accounts : List AccountRow
accounts =
    record { id = 20; merchant_id = some 1; kind = merchant_balance; currency = "USD" }
    ∷ record { id = 21; merchant_id = some 1; kind = disputes_payable; currency = "USD" }
    ∷ record { id = 22; merchant_id = none; kind = settlement_clearing; currency = "USD" }
    ∷ record { id = 23; merchant_id = none; kind = fee_revenue; currency = "USD" }
    ∷ []

abbrev pub sample_db : Db
sample_db = record {
  merchants = merchant ∷ [];
  charges = charge ∷ [];
  disputes = open_alert ∷ open_chargeback ∷ [];
  accounts = accounts;
  journals = [];
  legs = [];
  events = [];
  outbox = [];
  deliveries = [];
  runs = [];
  next_id = 100;
}

abbrev pub sample_session : Session
sample_session = session sample_db (50 * second) []

abbrev pub entry : Entry
entry = record {
  dispute_id = 7;
  merchant_id = 1;
  amount_minor = pos 2000;
  currency = "USD";
  at = 50 * second;
}

abbrev pub candidate : Candidate
candidate = record {
  id = 7;
  kind = alert;
  state = received;
  reason_code = "13.1";
  amount_minor = pos 2000;
  currency = "USD";
  deadline_at = 100 * second;
  resolved = false;
  auto_refund_ceiling_minor = some (pos 10000);
  refundable_remaining_minor = pos 5000;
}

abbrev pub reading : Loaded
reading = record { candidate = candidate; merchant_id = 1; version = 3 }

abbrev pub options : Options
options = record { batch_size = 10; lookahead = 60 * second; lock_ttl = 30 * second; id = "w1" }

abbrev pub round : Round
round = record {
  token = some (codes "aa");
  lock_fate = works;
  locked_at = 50 * second;
  load_fate = works;
  decided_at = 50 * second;
  apply_fates = [];
  applied_at = 50 * second;
  schedule_fate = works;
  scheduled_at = 50 * second;
  release_fate = works;
  released_at = 51 * second;
}

abbrev pub world : World
world = record {
  db = sample_db;
  index = [];
  locks = [];
  counters = record { claimed = 1; decided = 1; skipped = 0; stale = 0; failed = 0; contended = 0 };
}
