-- ===== src/Agent/Runs.antt =====
-- internal/agent/store.go: which disputes may be drafted, how one is held, and how a run is written down.
-- Model, prompt fingerprint, tool surface, tokens and trace are columns that nothing here reads.
pub mod Rows
pub mod Again
use dispute_router.Common.{
  ℕ, suc, ◌+◌, ◌*◌, String, Bool, true, false, not, ◌&&◌, ◌||◌, List, [], ◌∷◌, ◌++◌, map, take,
  Option, none, some, length, find_where, filter_where, update_where, if◌then◌else◌, ltb, leb, ◌==◌,
}
use dispute_router.Common.Bytes.{Bytes}
use dispute_router.Common.Int.{ℤ, pos}
use dispute_router.Database.Schema.{
  Db, RunRow, RunOutcome, drafted, rejected, insufficient_evidence, budget_exceeded, run_failed,
  Finding, Recommendation, DisputeRow, text, key, number, flag,
}
use dispute_router.Database.Transaction.{
  Error, claim_lost, check_violation, unique_violation, Result, ok, err, Fate, sent, Session, Tx,
  ◌>>=◌, ◌>>◌, statement, begin_func, auto_commit,
}
use dispute_router.Dispute.{State, received, resolving, draft_ready, state_eq, Kind, chargeback}
use dispute_router.Events.{Event, record_event}
use dispute_router.Worker.Store.{moved}

-- `Claim`.
pub record Claim : Type 0 where
  pub dispute_id : ℕ
  pub version : ℕ
  pub attempt : ℕ
  pub spent_micros : ℕ
  pub prior_findings : List Finding

unfoldable pub runs_of : ℕ → List RunRow → List RunRow
runs_of dispute_id = filter_where (λ a. a.dispute_id == dispute_id)

unfoldable pub spent : List RunRow → ℕ
spent [] = 0
spent (a ∷ rows) = a.cost_micros + spent rows

-- ORDER BY attempt DESC LIMIT 1; `best` is the latest run so far.
unfoldable pub latest : Option RunRow → List RunRow → Option RunRow
latest best [] = best
latest none (a ∷ rows) = latest (some a) rows
latest (some b) (a ∷ rows) = latest (if ltb b.attempt a.attempt then some a else some b) rows

abbrev findings_of : Option RunRow → List Finding
findings_of none = []
findings_of (some a) = a.findings

abbrev pub minutes : ℕ
minutes = 60000000000

abbrev is_chargeback : Kind → Bool
is_chargeback chargeback = true
is_chargeback k = false

unfoldable pub is_candidate : ℕ → ℕ → List RunRow → DisputeRow → Bool
is_candidate now max_attempts runs d =
    state_eq d.state received
    && is_chargeback d.kind
    && ltb (now + 5 * minutes) d.deadline_at
    && ltb (length (runs_of d.id runs)) max_attempts

-- ORDER BY d.deadline_at, by insertion.
unfoldable pub insert_by_deadline : DisputeRow → List DisputeRow → List DisputeRow
insert_by_deadline d [] = d ∷ []
insert_by_deadline d (e ∷ ds) =
    let rest = e ∷ insert_by_deadline d ds in
    if ltb e.deadline_at d.deadline_at then rest else d ∷ e ∷ ds

unfoldable pub sort_by_deadline : List DisputeRow → List DisputeRow
sort_by_deadline [] = []
sort_by_deadline (d ∷ ds) = insert_by_deadline d (sort_by_deadline ds)

-- `Candidates`.
unfoldable pub candidates : ℕ → ℕ → Fate → ℕ → Db → Result (List ℕ)
candidates max_attempts limit fate now db = sent fate (
    ok (
      map (λ d. d.id)
        (take limit
          (sort_by_deadline (filter_where (is_candidate now max_attempts db.runs) db.disputes)))))

unfoldable pub can_hold : ℕ → DisputeRow → Bool
can_hold dispute_id d = d.id == dispute_id && state_eq d.state received

-- The UPDATE of `Hold`, and what its SELECT returns.
pub hold_row : ℕ → Db → Option DisputeRow → Result (Claim × Db)
hold_row dispute_id db none = err claim_lost
hold_row dispute_id db (some d) =
    let mine = runs_of dispute_id db.runs in
    ok (
      record {
        dispute_id = d.id;
        version = suc d.version;
        attempt = length mine + 1;
        spent_micros = spent mine;
        prior_findings = findings_of (latest none mine);
      },
      record db {
        disputes = update_where (can_hold dispute_id) (moved resolving false 0) db.disputes;
      },
    )

-- `Runs.Hold`.
unfoldable pub hold : ℕ → Fate → Db → Result Claim × Db
unfolding hold_row
hold dispute_id fate db =
    auto_commit fate db (hold_row dispute_id db (find_where (can_hold dispute_id) db.disputes))

unfoldable pub is_claimed : Claim → DisputeRow → Bool
is_claimed c d = d.id == c.dispute_id && d.version == c.version

-- SET state, version WHERE id AND version.
unfoldable pub move_claimed : Claim → State → List DisputeRow → List DisputeRow
move_claimed c to = update_where (is_claimed c) (moved to false 0)

pub release_row : Claim → Db → Option DisputeRow → Result (Unit {0} × Db)
release_row c db none = err claim_lost
release_row c db (some d) = ok (tt, record db { disputes = move_claimed c received db.disputes })

-- `Runs.Release`.
unfoldable pub release : Claim → Fate → Db → Result (Unit {0}) × Db
unfolding release_row
release c fate db = auto_commit fate db (release_row c db (find_where (is_claimed c) db.disputes))

-- `Run`, as far as it is read again.
pub record Run : Type 0 where
  pub outcome : RunOutcome
  pub recommendation : Option Recommendation
  pub letter : Bytes
  pub cited_evidence : List String
  pub findings : List Finding
  pub cost_micros : ℕ
  pub escalated : Bool

-- `nextState`.
unfoldable pub next_state : RunOutcome → Bool → State × Bool
next_state outcome true = (draft_ready, true)
next_state drafted false = (draft_ready, true)
next_state insufficient_evidence false = (draft_ready, true)
next_state rejected false = (received, false)
next_state budget_exceeded false = (received, false)
next_state run_failed false = (received, false)

unfoldable pub same_attempt : Claim → RunRow → Bool
same_attempt c a = a.dispute_id == c.dispute_id && a.attempt == c.attempt

abbrev wants_recommendation : RunOutcome → Bool
wants_recommendation drafted = true
wants_recommendation rejected = true
wants_recommendation insufficient_evidence = true
wants_recommendation budget_exceeded = false
wants_recommendation run_failed = false

abbrev has_recommendation : Option Recommendation → Bool
has_recommendation none = false
has_recommendation (some r) = true

-- agent_runs_draft_has_recommendation.
unfoldable pub run_check : Run → Bool
run_check r =
    if wants_recommendation r.outcome
    then has_recommendation r.recommendation
    else not (has_recommendation r.recommendation)

unfoldable pub run_row : ℕ → Claim → Run → RunRow
run_row id c r = record {
  id = id;
  dispute_id = c.dispute_id;
  attempt = c.attempt;
  outcome = r.outcome;
  recommendation = r.recommendation;
  letter = r.letter;
  cited_evidence = r.cited_evidence;
  findings = r.findings;
  cost_micros = r.cost_micros;
  review = none;
  reviewed_by = none;
  reviewed_at = none;
}

add_run : Claim → Run → Session → Option RunRow → Result (Unit {0} × Session)
unfolding run_check
add_run c r s (some old) = if run_check r then err unique_violation else err check_violation
add_run c r s none =
    if run_check r
    then ok (
      tt,
      record s {
        db = record s.db {
          runs = s.db.runs ++ (run_row s.db.next_id c r ∷ []);
          next_id = suc s.db.next_id;
        };
      },
    )
    else err check_violation

-- INSERT INTO agent_runs, with its CHECK and its unique key.
pub insert_run : Claim → Run → Tx (Unit {0})
unfolding add_run
insert_run c r = statement λ s. add_run c r s (find_where (same_attempt c) s.db.runs)

-- UPDATE disputes; no row affected is ErrClaimLost.
pub move_dispute : Claim → State → Tx (Unit {0})
move_dispute c to = statement λ s. elim (find_where (is_claimed c) s.db.disputes) [
  | none ↦ err claim_lost
  | some d ↦ ok (tt, record s { db = record s.db { disputes = move_claimed c to s.db.disputes } })
]

outcome_text : RunOutcome → String
outcome_text drafted = "drafted"
outcome_text rejected = "rejected"
outcome_text insufficient_evidence = "insufficient_evidence"
outcome_text budget_exceeded = "budget_exceeded"
outcome_text run_failed = "failed"

-- The detail's model is left out.
pub run_event : Claim → Run → State → Event
unfolding outcome_text next_state
run_event c r to = record {
  dispute_id = c.dispute_id;
  from_state = some resolving;
  to_state = to;
  actor = "agent";
  detail =
      ("attempt", key c.attempt)
      ∷ ("outcome", text (outcome_text r.outcome))
      ∷ ("cost_micros", number (pos r.cost_micros))
      ∷ ("findings", key (length r.findings))
      ∷ ("escalated", flag r.escalated)
      ∷ ("awaiting_review", flag (next_state r.outcome r.escalated).1)
      ∷ [];
  occurred_at = 0;
}

unfoldable pub run_tx : Claim → Run → State → Tx (Unit {0})
run_tx c r to = do insert_run c r; move_dispute c to; record_event (run_event c r to)

-- `Runs.Record`.
unfoldable pub record_run : Claim → Run → List Fate → ℕ → Db → Result (Unit {0}) × Db
unfolding next_state
record_run c r = begin_func (run_tx c r (next_state r.outcome r.escalated).0)
