-- ===== src/Agent/Assist/Stages.antt =====
-- internal/agent/assist.go: the stages of an attempt, when a drafted run is what comes of it.
use dispute_router.Common.{
  ◌+◌, ◌≡◌, ◌↔◌, refl, inl, inr, Bool, Bool-cases, true, false, List, [], ◌∷◌, Option, none, some,
  arith,
}
use dispute_router.Agent.Runs.{Claim, Run}
use dispute_router.Agent.Assist.{
  Draft, DraftInput, VerdictInput, parsed_verdict, Limits, Answers, recommended, approved,
  over_budget, after_verdict, after_citations,
}
use dispute_router.Database.Schema.{drafted, Finding, recommend_represent}
use dispute_router.Database.Transaction.{Result, ok}

-- Each stage of an attempt comes to a drafted run exactly if the stage and those after it find nothing against it.
unfoldable pub Drafted : Result Run → Run → Type 0
Drafted o r = (o ≡ ok r) × (r.outcome ≡ drafted)

unfoldable pub Judged : Answers → DraftInput → Run → Type 0
Judged a d r =
    (a.verdict ≡ some (record { pass = true; findings = [] }))
    × (r ≡ record {
      outcome = drafted;
      recommendation = some recommend_represent;
      letter = d.letter;
      cited_evidence = d.cited_evidence;
      findings = [];
      cost_micros = a.draft_cost + a.verdict_cost;
      escalated = false;
    })

-- `parsed_draft` of an answer that recommends to represent.
abbrev pub represents : DraftInput → Draft
represents d = record {
  recommendation = recommend_represent;
  letter = d.letter;
  cited_evidence = d.cited_evidence;
  written = true;
}

answer_of : Bool → List Finding → VerdictInput
answer_of pass findings = record { pass = pass; findings = findings }

after_verdict-answered :
    (l : Limits) (c : Claim) (a : Answers) (d : DraftInput) (pass : Bool) (fs : List Finding)
    (r : Run)
    → a.verdict ≡ some (answer_of pass fs)
    → Drafted (after_verdict l c a (represents d) (some (answer_of pass fs))) r ↔ Judged a d r
unfolding after_verdict approved parsed_verdict recommended Drafted Judged answer_of
after_verdict-answered l c a d true [] r e =
    ((λ (h, o). (e, ground (arith, h))), λ (h, k). (ground (arith, k), ground (arith, k)))
after_verdict-answered l c a d false [] r e =
    ((λ (h, o). absurd (ground (arith, h, o))), λ (h, k). absurd (ground (arith, e, h)))
after_verdict-answered l c a d false (f ∷ fs) r e =
    ((λ (h, o). absurd (ground (arith, h, o))), λ (h, k). absurd (ground (arith, e, h)))
after_verdict-answered l c a d true (f ∷ fs) r e =
    ((λ (h, o). absurd (ground (arith, h, o))), λ (h, k). absurd (ground (arith, e, h)))

pub after_verdict-Judged :
    (l : Limits) (c : Claim) (a : Answers) (d : DraftInput) (o : Option VerdictInput) (r : Run)
    → a.verdict ≡ o
    → Drafted (after_verdict l c a (represents d) o) r ↔ Judged a d r
unfolding after_verdict Drafted Judged answer_of
after_verdict-Judged l c a d none r e =
    ((λ (h, o). absurd (ground (arith, h))), λ (h, k). absurd (ground (arith, e, h)))
after_verdict-Judged l c a d (some v) r e = after_verdict-answered l c a d v.pass v.findings r e

-- No answer of the verifier drafts a letter that is not recommended.
pub after_verdict-insufficient :
    (l : Limits) (c : Claim) (a : Answers) (d : Draft) (o : Option VerdictInput) (r : Run)
    → recommended d ≡ false
    → Drafted (after_verdict l c a d o) r
    → ⊥
unfolding after_verdict Drafted
after_verdict-insufficient l c a d none r e (h, o) = ground (arith, h)
after_verdict-insufficient l c a d (some v) r e (h, o) =
    elim (Bool-cases (approved (parsed_verdict v))) [
      | inl k ↦ ground (arith, h, o, k, e)
      | inr k ↦ ground (arith, h, o, k)
    ]

pub after_citations-none :
    (l : Limits) (c : Claim) (a : Answers) (d : Draft) (found : List Finding) (r : Run)
    → Drafted (after_citations l c a d found) r ↔ (
        (found ≡ [])
        × (over_budget l (c.spent_micros + a.draft_cost) ≡ false)
        × Drafted (after_verdict l c a d a.verdict) r)
unfolding after_citations Drafted
after_citations-none l c a d (f ∷ fs) r =
    ((λ (h, o). absurd (ground (arith, h, o))), λ (e, b, h). absurd (ground (arith, e)))
after_citations-none l c a d [] r =
    elim (Bool-cases (over_budget l (c.spent_micros + a.draft_cost))) [
      | inl k ↦
          ((λ (h, o). absurd (ground (arith, h, o, k))), λ (e, b, h). absurd (ground (arith, b, k)))
      | inr k ↦ ((λ (h, o). (refl, k, (rw k at h, o))), λ (e, b, h). (rw k h.0, h.1))
    ]
