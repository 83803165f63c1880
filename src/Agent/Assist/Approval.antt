-- ===== src/Agent/Assist/Approval.antt =====
-- internal/agent/assist.go: what a draft has passed when it reaches a reviewer.
use mathlib.Core.List.{Memᴰ}
use dispute_router.Common.{
  ap, subst, ◌∙◌, ◌+◌, ◌≡◌, ◌↔◌, refl, sym, inl, inr, All, Bool-cases, eq_iff, str_eq, ◌⊎◌, String,
  true, false, List, [], Option, none, some, arith,
}
use dispute_router.Agent.Runs.{Claim, Run}
use dispute_router.Agent.Assist.{
  Draft, DraftInput, uncited_files, undeclared_files, parsed_draft, Limits, Answers, recommended,
  check_citations, over_budget, estimate_exceeds, after_verdict, after_draft, after_facts, attempt,
}
use dispute_router.Database.Schema.{drafted, recommend_represent}
use dispute_router.Database.Transaction.{ok}
use dispute_router.Agent.Assist.Checks.{
  Affordable, AffordableEstimate, over_budget-Affordable, estimate_exceeds-Affordable,
  uncited_files-none, undeclared_files-none, append-none,
}
use dispute_router.Agent.Assist.Stages.{
  Drafted, Judged, represents, after_verdict-Judged, after_verdict-insufficient,
  after_citations-none,
}

-- What makes an attempt a drafted run, and the run that it then is.
pub record Passed (l : Limits) (c : Claim) (a : Answers) (r : Run) : Type 0 where
  pub files : List String
  pub on_the_dispute : a.files ≡ some files
  pub estimated : AffordableEstimate l c.spent_micros a.estimate
  pub letter : DraftInput
  pub drawn_up : a.draft ≡ some letter
  pub is_represent : letter.recommendation ≡ "represent"
  pub cites_files : All (λ f. Memᴰ f files) letter.cited_evidence
  pub declares_files :
      All (λ f. (a.letter_names letter.letter f ≡ false) ⊎ Memᴰ f letter.cited_evidence) files
  pub in_budget : Affordable l (c.spent_micros + a.draft_cost)
  pub judged : a.verdict ≡ some (record { pass = true; findings = [] })
  pub result : r ≡ record {
    outcome = drafted;
    recommendation = some recommend_represent;
    letter = letter.letter;
    cited_evidence = letter.cited_evidence;
    findings = [];
    cost_micros = a.draft_cost + a.verdict_cost;
    escalated = false;
  }

-- The letter that a drafted run comes from.
record Accepted (l : Limits) (c : Claim) (a : Answers) (files : List String) (r : Run)
    (o : Option DraftInput) : Type 0 where
  letter : DraftInput
  drawn_up : o ≡ some letter
  is_represent : letter.recommendation ≡ "represent"
  no_findings : check_citations a.letter_names files (represents letter) ≡ []
  in_budget : over_budget l (c.spent_micros + a.draft_cost) ≡ false
  judged : Judged a letter r

parsed_draft-represents :
    (d : DraftInput) → d.recommendation ≡ "represent" → parsed_draft (some d) ≡ some (represents d)
unfolding parsed_draft
parsed_draft-represents d e = rw ((eq_iff d.recommendation "represent").1 e) refl

-- What an answer is parsed to, if to anything.
parsed_draft-cases :
    (o : Option DraftInput) (d : Draft)
    → parsed_draft o ≡ some d
    → ((x : DraftInput) × (o ≡ some x) × (x.recommendation ≡ "represent") × (d ≡ represents x))
      ⊎ (recommended d ≡ false)
unfolding parsed_draft recommended
parsed_draft-cases none d h = absurd (ground arith)
parsed_draft-cases (some x) d h = elim (Bool-cases (str_eq x.recommendation "represent")) [
  | inl e ↦ inl (x, refl, (eq_iff x.recommendation "represent").0 e, ground (arith, e, h))
  | inr e ↦ inr (ground (arith, e, h))
]

after_draft-Accepted :
    (l : Limits) (c : Claim) (a : Answers) (files : List String) (o : Option DraftInput)
    (p : Option Draft) (r : Run)
    → parsed_draft o ≡ p
    → Drafted (after_draft l c a files p) r
    → Accepted l c a files r o
unfolding after_draft Drafted
after_draft-Accepted l c a files o none r e h = absurd (ground (arith, h.0))
after_draft-Accepted l c a files o (some d) r e h =
    let (clean, budget, rest) =
      (after_citations-none l c a d (check_citations a.letter_names files d) r).0 h in
    elim (parsed_draft-cases o d e) [
      | inr insufficient ↦ absurd (after_verdict-insufficient l c a d a.verdict r insufficient rest)
      | inl (x, given, rec, same) ↦ record {
        letter = x;
        drawn_up = given;
        is_represent = rec;
        no_findings = subst (λ y. check_citations a.letter_names files y ≡ []) same clean;
        in_budget = budget;
        judged =
            (after_verdict-Judged l c a x a.verdict r refl).0
              (subst (λ y. Drafted (after_verdict l c a y a.verdict) r) same rest);
      }
    ]

Accepted-after_draft :
    (l : Limits) (c : Claim) (a : Answers) (files : List String) (o : Option DraftInput) (r : Run)
    → Accepted l c a files r o
    → Drafted (after_draft l c a files (parsed_draft o)) r
unfolding after_draft
Accepted-after_draft l c a files o r k =
    subst (λ p. Drafted (after_draft l c a files p) r)
      (sym (ap parsed_draft k.drawn_up ∙ parsed_draft-represents k.letter k.is_represent))
      ((after_citations-none l c a (represents k.letter)
          (check_citations a.letter_names files (represents k.letter)) r).1
        (
          k.no_findings,
          k.in_budget,
          (after_verdict-Judged l c a k.letter a.verdict r refl).1 k.judged,
        ))

after_facts-Drafted :
    (l : Limits) (c : Claim) (a : Answers) (o : Option (List String)) (r : Run)
    → Drafted (after_facts l c a o) r
    → (files : List String) × (o ≡ some files)
      × (estimate_exceeds l c a.estimate ≡ false)
      × Drafted (after_draft l c a files (parsed_draft a.draft)) r
unfolding after_facts Drafted
after_facts-Drafted l c a none r (h, o) = absurd (ground (arith, h))
after_facts-Drafted l c a (some files) r (h, o) =
    elim (Bool-cases (estimate_exceeds l c a.estimate)) [
      | inl k ↦ absurd (ground (arith, h, o, k))
      | inr k ↦ (files, refl, k, (rw k at h, o))
    ]

attempt_sound :
    (l : Limits) (c : Claim) (a : Answers) (r : Run) → Drafted (attempt l c a) r → Passed l c a r
unfolding attempt check_citations Judged
attempt_sound l c a r h =
    let (files, there, estimate, rest) = after_facts-Drafted l c a a.files r h in
    let k = after_draft-Accepted l c a files a.draft (parsed_draft a.draft) r refl rest in
    let (cited, declared) =
      (append-none (uncited_files files k.letter.cited_evidence)
          (undeclared_files (a.letter_names k.letter.letter) k.letter.cited_evidence files)).0
        k.no_findings in
    record {
      files = files;
      on_the_dispute = there;
      estimated = (estimate_exceeds-Affordable l c a.estimate).0 estimate;
      letter = k.letter;
      drawn_up = k.drawn_up;
      is_represent = k.is_represent;
      cites_files = (uncited_files-none files k.letter.cited_evidence).0 cited;
      declares_files =
          (undeclared_files-none (a.letter_names k.letter.letter) k.letter.cited_evidence files).0
            declared;
      in_budget = (over_budget-Affordable l (c.spent_micros + a.draft_cost)).0 k.in_budget;
      judged = k.judged.0;
      result = k.judged.1;
    }

attempt_complete :
    (l : Limits) (c : Claim) (a : Answers) (r : Run) → Passed l c a r → Drafted (attempt l c a) r
unfolding attempt after_facts check_citations Judged
attempt_complete l c a r p =
    let k : Accepted l c a p.files r a.draft = record {
      letter = p.letter;
      drawn_up = p.drawn_up;
      is_represent = p.is_represent;
      no_findings =
          (append-none (uncited_files p.files p.letter.cited_evidence)
              (undeclared_files (a.letter_names p.letter.letter) p.letter.cited_evidence p.files)).1
            (
              (uncited_files-none p.files p.letter.cited_evidence).1 p.cites_files,
              (undeclared_files-none (a.letter_names p.letter.letter) p.letter.cited_evidence
                    p.files).1
                  p.declares_files,
            );
      in_budget = (over_budget-Affordable l (c.spent_micros + a.draft_cost)).1 p.in_budget;
      judged = (p.judged, p.result);
    } in
    subst (λ o. Drafted (after_facts l c a o) r) (sym p.on_the_dispute)
      (rw ((estimate_exceeds-Affordable l c a.estimate).1 p.estimated)
        (Accepted-after_draft l c a p.files a.draft r k))

-- An attempt comes to a drafted run exactly when the files on the dispute could be read, what was spent with the estimate, if one could
-- be made, is under the ceiling, the generator answered with a letter to represent that cites only files on the dispute and
-- cites each of them that its text names, what was spent with the generator's cost is under the ceiling, and the verifier
-- passed it without a finding. The run holds that letter and the cost of both calls. (The verifier's own cost is not held
-- to the ceiling.)
pub attempt-drafted_iff :
    (l : Limits) (c : Claim) (a : Answers) (r : Run)
    → ((attempt l c a ≡ ok r) × (r.outcome ≡ drafted)) ↔ Passed l c a r
unfolding Drafted
attempt-drafted_iff l c a r = (attempt_sound l c a r, attempt_complete l c a r)
