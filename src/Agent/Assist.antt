-- ===== src/Agent/Assist.antt =====
-- internal/agent/assist.go, with CheckCitations of generate.go and Approved of verify.go: one attempt at a
-- dispute. What the models, the price estimate and the record's assembly answer are parameters; a text
-- search says whether a letter names a file.
pub mod Checks
pub mod Stages
pub mod Approval
pub mod Ends
use dispute_router.Common.{
  ℕ, ◌+◌, String, Bool, true, false, not, ◌&&◌, ◌||◌, List, [], ◌∷◌, ◌++◌, Option, none, some,
  if◌then◌else◌, ltb, leb, str_eq,
}
use dispute_router.Common.Bytes.{Bytes}
use dispute_router.Database.Schema.{
  Db, RunOutcome, drafted, rejected, insufficient_evidence, budget_exceeded, Finding,
  Recommendation, recommend_represent, recommend_insufficient,
}
use dispute_router.Database.Transaction.{
  Error, assembly_failed, drafting_failed, verifying_failed, recording_failed, Result, ok, err,
  Fate,
}
use dispute_router.Agent.Runs.{Claim, Run, hold, release, record_run}

-- `Draft`: what `Write` returns beside its error; a draft that was not written costs too.
pub record Draft : Type 0 where
  pub recommendation : Recommendation
  pub letter : Bytes
  pub cited_evidence : List String
  pub written : Bool

-- `Verdict`.
pub record Verdict : Type 0 where
  pub pass : Bool
  pub findings : List Finding
  pub checked : Bool

-- `draftInput`: the generator's answer as it was decoded.
pub record DraftInput : Type 0 where
  pub recommendation : String
  pub letter : Bytes
  pub cited_evidence : List String

-- `verdictInput`.
pub record VerdictInput : Type 0 where
  pub pass : Bool
  pub findings : List Finding

-- The Assistant's limits.
pub record Limits : Type 0 where
  pub max_cost_micros : ℕ
  pub max_attempts : ℕ

-- What the outside answers in one attempt: the names of the files on the dispute, the estimate, the two
-- models' answers with what each call cost, and whether a letter names a file.
pub record Answers : Type 0 where
  pub files : Option (List String)
  pub estimate : Option ℕ
  pub draft_cost : ℕ
  pub draft : Option DraftInput
  pub verdict_cost : ℕ
  pub verdict : Option VerdictInput
  pub letter_names : Bytes → String → Bool

abbrev is_represent : Recommendation → Bool
is_represent recommend_represent = true
is_represent recommend_insufficient = false

-- `Draft.Recommended`.
unfoldable pub recommended : Draft → Bool
recommended d = d.written && is_represent d.recommendation

-- `Verdict.Approved`.
unfoldable pub approved : Verdict → Bool
approved v = v.checked && v.pass

abbrev has_none : List Finding → Bool
has_none [] = true
has_none (f ∷ fs) = false

-- `Check` after its call: a verdict parsed from an answer does not pass with a finding.
unfoldable pub parsed_verdict : VerdictInput → Verdict
parsed_verdict parsed = record {
  pass = has_none parsed.findings && parsed.pass;
  findings = parsed.findings;
  checked = true;
}

abbrev written_as : Recommendation → DraftInput → Draft
written_as recommendation parsed = record {
  recommendation = recommendation;
  letter = parsed.letter;
  cited_evidence = parsed.cited_evidence;
  written = true;
}

-- `Write` after its call: a recommendation that is neither of the two is an error.
unfoldable pub parsed_draft : Option DraftInput → Option Draft
parsed_draft none = none
parsed_draft (some parsed) =
    if str_eq parsed.recommendation "represent"
    then some (written_as recommend_represent parsed)
    else if str_eq parsed.recommendation "insufficient_evidence"
    then some (written_as recommend_insufficient parsed)
    else none

unfoldable pub is_listed_file : String → List String → Bool
is_listed_file name [] = false
is_listed_file name (f ∷ files) = str_eq f name || is_listed_file name files

abbrev missing : String → String → Finding
missing name why = record { check = "missing_evidence"; quote = name; why = why }

-- The first loop of CheckCitations.
unfoldable pub uncited_files : List String → List String → List Finding
uncited_files files [] = []
uncited_files files (cited ∷ rest) =
    let more = uncited_files files rest in
    if is_listed_file cited files
    then more
    else missing cited "no file with that name is on the dispute" ∷ more

-- The second loop of CheckCitations.
unfoldable pub undeclared_files : (String → Bool) → List String → List String → List Finding
undeclared_files names cited [] = []
undeclared_files names cited (file ∷ files) =
    let more = undeclared_files names cited files in
    if names file && not (is_listed_file file cited)
    then missing file "named in the letter but absent from cited_evidence" ∷ more
    else more

-- `CheckCitations`.
unfoldable pub check_citations : (Bytes → String → Bool) → List String → Draft → List Finding
check_citations letter_names files d =
    uncited_files files d.cited_evidence
    ++ undeclared_files (letter_names d.letter) d.cited_evidence files

-- `overBudget`; zero is no ceiling.
unfoldable pub over_budget : Limits → ℕ → Bool
over_budget l micros = ltb 0 l.max_cost_micros && leb l.max_cost_micros micros

-- `lastAttempt`.
unfoldable pub last_attempt : Limits → Claim → Bool
last_attempt l c = leb l.max_attempts c.attempt

abbrev pub first_budget : Limits → Claim → Run
first_budget l c = record {
  outcome = budget_exceeded;
  recommendation = none;
  letter = [];
  cited_evidence = [];
  findings = [];
  cost_micros = 0;
  escalated = last_attempt l c;
}

abbrev pub drafted_run : Draft → RunOutcome → List Finding → ℕ → Bool → Run
drafted_run d outcome findings cost escalated = record {
  outcome = outcome;
  recommendation = some d.recommendation;
  letter = d.letter;
  cited_evidence = d.cited_evidence;
  findings = findings;
  cost_micros = cost;
  escalated = escalated;
}

-- `attempt` after the verifier's call.
pub after_verdict : Limits → Claim → Answers → Draft → Option VerdictInput → Result Run
after_verdict l c a d none = err verifying_failed
after_verdict l c a d (some parsed) =
    let v = parsed_verdict parsed in
    let cost = a.draft_cost + a.verdict_cost in
    if not (approved v)
    then ok (drafted_run d rejected v.findings cost (last_attempt l c))
    else if not (recommended d)
    then ok (drafted_run d insufficient_evidence v.findings cost false)
    else ok (drafted_run d drafted v.findings cost false)

-- `attempt` after the citation check.
pub after_citations : Limits → Claim → Answers → Draft → List Finding → Result Run
unfolding after_verdict
after_citations l c a d (f ∷ fs) =
    ok (drafted_run d rejected (f ∷ fs) a.draft_cost (last_attempt l c))
after_citations l c a d [] =
    if over_budget l (c.spent_micros + a.draft_cost)
    then ok (record (drafted_run d budget_exceeded [] a.draft_cost (last_attempt l c)) {
      recommendation = none;
    })
    else after_verdict l c a d a.verdict

-- `attempt` after the generator's call.
pub after_draft : Limits → Claim → Answers → List String → Option Draft → Result Run
unfolding after_citations
after_draft l c a files none = err drafting_failed
after_draft l c a files (some d) = after_citations l c a d (check_citations a.letter_names files d)

-- An estimate that failed is passed over.
unfoldable pub estimate_exceeds : Limits → Claim → Option ℕ → Bool
estimate_exceeds l c none = false
estimate_exceeds l c (some estimate) = over_budget l (c.spent_micros + estimate)

pub after_facts : Limits → Claim → Answers → Option (List String) → Result Run
unfolding after_draft
after_facts l c a none = err assembly_failed
after_facts l c a (some files) =
    if estimate_exceeds l c a.estimate
    then ok (first_budget l c)
    else after_draft l c a files (parsed_draft a.draft)

-- `attempt`.
unfoldable pub attempt : Limits → Claim → Answers → Result Run
unfolding after_facts
attempt l c a = after_facts l c a a.files

-- The fates of one `Assist` and the clock of its transaction.
pub record Trip : Type 0 where
  pub hold_fate : Fate
  pub record_fates : List Fate
  pub release_fate : Fate
  pub now : ℕ

-- `Assist` after `Record`.
after_record : Trip → Claim → Run → Result (Unit {0}) × Db → Result RunOutcome × Db
after_record t c r (ok u, db) = (ok r.outcome, db)
after_record t c r (err e, db) = (err recording_failed, (release c t.release_fate db).1)

-- `Assist` after `attempt`.
pub after_attempt : Trip → Claim → Result Run → Db → Result RunOutcome × Db
unfolding after_record
after_attempt t c (err e) db = (err e, (release c t.release_fate db).1)
after_attempt t c (ok r) db = after_record t c r (record_run c r t.record_fates t.now db)

pub after_hold : Limits → Answers → Trip → Result Claim × Db → Result RunOutcome × Db
unfolding after_attempt
after_hold l a t (err e, db) = (err e, db)
after_hold l a t (ok c, db) = after_attempt t c (attempt l c a) db

-- `Assist`.
unfoldable pub assist : Limits → ℕ → Answers → Trip → Db → Result RunOutcome × Db
unfolding after_hold
assist l dispute_id a t db = after_hold l a t (hold dispute_id t.hold_fate db)
