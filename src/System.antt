-- ===== src/System.antt =====
-- The whole of what writes to the database, one transaction after the other in any order: the webhooks of
-- internal/ingest/store.go behind their validation, the workers of internal/worker, the assistant's runs of
-- internal/agent/store.go and the reviewers of internal/api/reviews.go. What a worker has read, and what the
-- assistant has claimed, may be acted on at any later time and more than once.
pub mod Rows
pub mod Writes
pub mod Known
pub mod Edges
pub mod Lifecycle
pub mod Upkeep
pub mod History
use dispute_router.Common.{ℕ, zero, suc, String, Bool, List, [], ◌∷◌, Option, none, some, get_elem?}
use dispute_router.Common.Bytes.{Bytes}
use dispute_router.Database.Schema.{Db}
use dispute_router.Database.Transaction.{Result, ok, err, Fate}
use dispute_router.Agent.Runs
use dispute_router.Agent.Runs.{Claim, Run, release, record_run}
use dispute_router.Ingest.Event.{
  DisputeWebhook, RulingWebhook, InvalidEvent, validate, validate_ruling,
}
use dispute_router.Ingest.Ruling.{record_ruling}
use dispute_router.Ingest.Store.{Delivery, record_dispute}
use dispute_router.Reviews.{ReviewDecision, review}
use dispute_router.Worker.Rules.{decide}
use dispute_router.Worker.Store.{Loaded, load, apply}

pub record System : Type 0 where
  pub db : Db
  pub readings : List Loaded
  pub claims : List Claim

-- What may happen next; a number picks a reading or a claim.
pub data Input : Type 0 where
  delivers : Delivery → DisputeWebhook → ℕ → List Fate → ℕ → Input
  rules : Delivery → RulingWebhook → List Fate → ℕ → Input
  reads : ℕ → Fate → Input
  decides : ℕ → ℕ → String → List Fate → ℕ → Input
  holds : ℕ → Fate → Input
  gives_back : ℕ → Fate → Input
  finishes : ℕ → Run → List Fate → ℕ → Input
  reviews : ℕ → ReviewDecision → String → List Fate → ℕ → Input

abbrev keep_reading : Result Loaded → List Loaded → List Loaded
keep_reading (ok l) readings = l ∷ readings
keep_reading (err e) readings = readings

abbrev keep_claim : Result Claim → List Claim → List Claim
keep_claim (ok c) claims = c ∷ claims
keep_claim (err e) claims = claims

-- The handler lets only a valid event through.
unfoldable pub deliver :
    (Bytes → Bool) → Delivery → DisputeWebhook → List Fate → ℕ → Db → Option InvalidEvent → Db
deliver is_jsonb d e fates now db none = (record_dispute is_jsonb d e fates now db).1
deliver is_jsonb d e fates now db (some x) = db

unfoldable pub rule :
    (Bytes → Bool) → Delivery → RulingWebhook → List Fate → ℕ → Db → Option InvalidEvent → Db
rule is_jsonb d e fates now db none = (record_ruling is_jsonb d e fates now db).1
rule is_jsonb d e fates now db (some x) = db

-- A worker decides at `decided_at` on a reading, and applies it.
unfoldable pub act : ℕ → String → List Fate → ℕ → Db → Option Loaded → Db
act decided_at worker fates now db none = db
act decided_at worker fates now db (some l) =
    (apply l (decide l.candidate decided_at) worker fates now db).1

unfoldable pub give_back : Fate → Db → Option Claim → Db
give_back fate db none = db
give_back fate db (some c) = (release c fate db).1

unfoldable pub finish : Run → List Fate → ℕ → Db → Option Claim → Db
finish r fates now db none = db
finish r fates now db (some c) = (record_run c r fates now db).1

unfoldable pub step : (Bytes → Bool) → Input → System → System
step is_jsonb (delivers d e seen_at fates now) s = record s {
  db = deliver is_jsonb d e fates now s.db (validate e seen_at);
}
step is_jsonb (rules d e fates now) s = record s {
  db = rule is_jsonb d e fates now s.db (validate_ruling e);
}
step is_jsonb (reads id fate) s = record s {
  readings = keep_reading (load id fate s.db) s.readings;
}
step is_jsonb (decides n decided_at worker fates now) s = record s {
  db = act decided_at worker fates now s.db (get_elem? s.readings n);
}
step is_jsonb (holds id fate) s = record s {
  db = (Runs.hold id fate s.db).1;
  claims = keep_claim (Runs.hold id fate s.db).0 s.claims;
}
step is_jsonb (gives_back n fate) s = record s { db = give_back fate s.db (get_elem? s.claims n) }
step is_jsonb (finishes n r fates now) s = record s {
  db = finish r fates now s.db (get_elem? s.claims n);
}
step is_jsonb (reviews run_id decision reviewer fates now) s = record s {
  db = (review run_id decision reviewer fates now s.db).1;
}

unfoldable pub run : (Bytes → Bool) → List Input → System → System
run is_jsonb [] s = s
run is_jsonb (i ∷ is) s = run is_jsonb is (step is_jsonb i s)
