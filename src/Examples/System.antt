-- ===== src/Examples/System.antt =====
-- The theorems on the life of a dispute, at a system that has one that was refunded, one that was sent and
-- one that is open.
use dispute_router.Common.{
  ◌*◌, ◌≡◌, refl, Bool, true, List, [], ◌∷◌, some, arith, get_elem?, find_where, update_where,
}
use dispute_router.Common.Bytes.{Bytes}
use dispute_router.Agent.Runs
use dispute_router.Agent.Runs.{Run, can_hold, is_claimed, release, move_claimed}
use dispute_router.Database.Schema.{Db, DisputeRow, rejected, recommend_represent}
use dispute_router.Database.Transaction.{works, auto_commit}
use dispute_router.Dispute.{represented, refunded, state_eq}
use dispute_router.Reviews.{submitted}
use dispute_router.System.{
  System, Input, holds, gives_back, finishes, reviews, reads, decides, run, step, give_back,
}
use dispute_router.System.Edges.{Lifecycle}
use dispute_router.System.History.{
  submits_any, is_final, is_sent, run-Lifecycle, run-is_final, run-is_sent,
}
use dispute_router.System.Lifecycle.{Consistent, submits}
use dispute_router.System.Rows.{Grows}
use dispute_router.Worker.Store.{moved}
use dispute_router.Examples.Sample.{second, sample_db, open_alert, open_chargeback}

abbrev refunded_alert : DisputeRow
refunded_alert = record open_alert { state = refunded; resolved_at = some (40 * second) }

abbrev sent_chargeback : DisputeRow
sent_chargeback = record open_chargeback { state = represented }

abbrev new_chargeback : DisputeRow
new_chargeback = record open_chargeback { id = 9; external_id = "dp_9" }

abbrev three_disputes : Db
three_disputes = record sample_db {
  disputes = refunded_alert ∷ sent_chargeback ∷ new_chargeback ∷ [];
}

abbrev sample_system : System
sample_system = record { db = three_disputes; readings = []; claims = [] }

sample_system-Consistent : Consistent sample_system
sample_system-Consistent = record {
  keyed = (
    omega arith,
    omega arith,
    (omega arith, omega arith, (omega arith, omega arith, omega arith)),
  );
  readings = tt;
  claims = tt;
}

abbrev takes_all : Bytes → Bool
takes_all raw = true

abbrev rejected_run : Run
rejected_run = record {
  outcome = rejected;
  recommendation = some recommend_represent;
  letter = [];
  cited_evidence = [];
  findings = [];
  cost_micros = 7;
  escalated = true;
}

-- The new chargeback is drafted and sent, while a worker reads the refunded alert and acts on it.
abbrev busy_inputs : List Input
busy_inputs =
    reads 7 works
    ∷ holds 9 works
    ∷ finishes 0 rejected_run [] (50 * second)
    ∷ decides 0 (51 * second) "w1" [] (51 * second)
    ∷ reviews 100 submitted "ana" [] (52 * second)
    ∷ []

abbrev no_submission : List Input
no_submission = holds 9 works ∷ gives_back 0 works ∷ []

run-Lifecycle_example :
    Grows
      (Lifecycle (submits_any busy_inputs))
      three_disputes
      (run takes_all busy_inputs sample_system).db
run-Lifecycle_example = run-Lifecycle takes_all busy_inputs sample_system sample_system-Consistent

run-is_final_example :
    get_elem? (run takes_all busy_inputs sample_system).db.disputes 0 ≡ some refunded_alert
unfolding is_final
run-is_final_example =
    run-is_final takes_all busy_inputs sample_system 0 refunded_alert sample_system-Consistent refl
      refl

run-is_sent_example :
    (d : DisputeRow) × (get_elem? three_disputes.disputes 1 ≡ some d) × (is_sent d.state ≡ true)
unfolding submits_any submits is_sent run step give_back Runs.hold auto_commit find_where
    update_where can_hold state_eq moved release is_claimed move_claimed
run-is_sent_example =
    run-is_sent takes_all no_submission sample_system 1 sent_chargeback sample_system-Consistent
      refl refl refl
