-- ===== src/Examples/Reviews.antt =====
-- The theorems on a reviewer's decision, at a drafted dispute with two runs.
use dispute_router.Common.{◌*◌, ◌≡◌, refl, List, [], ◌∷◌, some, none, find_where, update_where}
use dispute_router.Common.Bytes.{codes}
use dispute_router.Database.Schema.{Db, RunRow, rejected, drafted, recommend_represent}
use dispute_router.Database.Transaction.{Error, ok, err, begin_func, all_balanced}
use dispute_router.Dispute.{draft_ready, state_eq}
use dispute_router.Events.{record_event}
use dispute_router.Reviews.{
  submitted, discarded, review, review_tx, decide_run, move_reviewed, target_of, awaits_decision,
  is_reviewable, is_valid_reviewer, is_blank, is_printable,
}
use dispute_router.Reviews.Decided.{Decided, review-Decided}
use dispute_router.Reviews.Once.{ReviewCall, run_reviews, review-once}
use dispute_router.Examples.Sample.{second, sample_db, open_alert, open_chargeback}

abbrev first_run : RunRow
first_run = record {
  id = 30;
  dispute_id = 8;
  attempt = 1;
  outcome = rejected;
  recommendation = some recommend_represent;
  letter = codes "They stole it.";
  cited_evidence = [];
  findings = [];
  cost_micros = 400;
  review = none;
  reviewed_by = none;
  reviewed_at = none;
}

abbrev second_run : RunRow
second_run = record first_run { id = 31; attempt = 2; outcome = drafted }

abbrev drafted_db : Db
drafted_db = record sample_db {
  disputes = open_alert ∷ record open_chargeback { state = draft_ready } ∷ [];
  runs = first_run ∷ second_run ∷ [];
}

-- The letter that the verifier rejected can be sent, in place of the one it passed.
submits_rejected : (review 30 submitted "ana" [] (50 * second) drafted_db).0 ≡ ok tt
unfolding review target_of is_valid_reviewer is_blank is_printable begin_func review_tx decide_run
    awaits_decision move_reviewed is_reviewable state_eq record_event find_where update_where
    all_balanced
submits_rejected = refl

review-Decided_example :
    Decided 30 submitted "ana"
      (50 * second)
      drafted_db
      (review 30 submitted "ana" [] (50 * second) drafted_db).1
review-Decided_example =
    review-Decided 30 submitted "ana" [] (50 * second) drafted_db submits_rejected

-- A reviewer tries the other run in between.
abbrev since : List ReviewCall
since =
    record { run_id = 31; decision = discarded; reviewer = "cy"; fates = []; now = 55 * second }
    ∷ []

review-once_example :
    (x : Error) × (review 30 discarded "bo" []
        (60 * second)
        (run_reviews since (review 30 submitted "ana" [] (50 * second) drafted_db).1)
      ≡ (err x, run_reviews since (review 30 submitted "ana" [] (50 * second) drafted_db).1))
review-once_example =
    review-once 30 submitted discarded "ana" "bo" [] [] (50 * second) (60 * second) since drafted_db
      submits_rejected
