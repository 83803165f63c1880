-- ===== src/Examples/Agent.antt =====
-- The theorems on an attempt at a dispute, at sample answers.
use dispute_router.Common.{◌↔◌, ◌*◌, ◌≡◌, refl, true, false, [], ◌∷◌, some, none}
use dispute_router.Common.Bytes.{codes}
use dispute_router.Agent.Runs.{Claim, Run}
use dispute_router.Agent.Assist.{
  DraftInput, parsed_draft, parsed_verdict, Limits, Answers, Trip, attempt, check_citations,
  uncited_files, undeclared_files, is_listed_file, over_budget, last_attempt, estimate_exceeds,
  approved, recommended,
}
use dispute_router.Agent.Assist.Approval.{Passed, attempt-drafted_iff}
use dispute_router.Database.Schema.{drafted, recommend_represent}
use dispute_router.Database.Transaction.{ok, works}
use dispute_router.Examples.Sample.{second}

abbrev limits : Limits
limits = record { max_cost_micros = 1000; max_attempts = 3 }

abbrev claim : Claim
claim = record { dispute_id = 8; version = 1; attempt = 1; spent_micros = 0; prior_findings = [] }

abbrev draft : DraftInput
draft = record {
  recommendation = "represent";
  letter = codes "See receipt.pdf.";
  cited_evidence = "receipt.pdf" ∷ [];
}

abbrev answers : Answers
answers = record {
  files = some ("receipt.pdf" ∷ "photo.png" ∷ []);
  estimate = some 100;
  draft_cost = 300;
  draft = some draft;
  verdict_cost = 200;
  verdict = some (record { pass = true; findings = [] });
  letter_names = λ letter name. false;
}

-- The generator costs 300 and then fails.
abbrev no_draft : Answers
no_draft = record answers { draft = none }

abbrev drafted_letter : Run
drafted_letter = record {
  outcome = drafted;
  recommendation = some recommend_represent;
  letter = codes "See receipt.pdf.";
  cited_evidence = "receipt.pdf" ∷ [];
  findings = [];
  cost_micros = 500;
  escalated = false;
}

abbrev trip : Trip
trip = record { hold_fate = works; record_fates = []; release_fate = works; now = 50 * second }

attempt_answers : attempt limits claim answers ≡ ok drafted_letter
unfolding attempt check_citations uncited_files undeclared_files is_listed_file over_budget
    last_attempt estimate_exceeds approved recommended parsed_draft parsed_verdict
attempt_answers = refl

attempt-drafted_iff_example :
    ((attempt limits claim answers ≡ ok drafted_letter) × (drafted_letter.outcome ≡ drafted))
    ↔ Passed limits claim answers drafted_letter
attempt-drafted_iff_example = attempt-drafted_iff limits claim answers drafted_letter
