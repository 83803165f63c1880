-- ===== src/Reviews/Found.antt =====
-- internal/api/reviews.go: what the conditions of a decision ask for.
use mathlib.Core.List.{Memᴰ}
use dispute_router.Common.{
  ℕ, ◌≡◌, ◌<◌, ◌≤◌, refl, sym, subst, inl, inr, length, String, Bool, true, false, List, [], ◌∷◌,
  none, some, arith, find_where, Bool-cases,
}
use dispute_router.Common.Bytes.{codes}
use dispute_router.Database.Schema.{DisputeRow, RunRow}
use dispute_router.Dispute.{
  State, received, resolving, draft_ready, represented, refunded, won, lost, expired, unlisted,
  state_eq,
}
use dispute_router.Reviews.{
  ReviewDecision, submitted, discarded, other_decision, decision_text, awaits_decision,
  is_reviewable, target_of, is_valid_reviewer, is_blank, is_printable,
}

-- Where a decision leads, and what the run says of it.
abbrev pub LeadsTo : ReviewDecision → State → String → Type 0
LeadsTo submitted to text = (to ≡ represented) × (text ≡ "submitted")
LeadsTo discarded to text = (to ≡ received) × (text ≡ "discarded")
LeadsTo (other_decision d) to text = ⊥

pub find_where-some :
    {A : Type 0} (p : A → Bool) (xs : List A) (x : A)
    → find_where p xs ≡ some x
    → Memᴰ x xs × (p x ≡ true)
unfolding find_where
find_where-some p [] x h = absurd (ground (arith, h))
find_where-some p (y ∷ ys) x h = elim (Bool-cases (p y)) [
  | inl e ↦
      let same : y ≡ x = ground (arith, rw e at h) in
      (Memᴰ.head (sym same), subst (λ z. p z ≡ true) same e)
  | inr e ↦ let (m, q) = find_where-some p ys x (rw e at h) in (Memᴰ.tail m, q)
]

pub awaits_decision-parts :
    (run_id : ℕ) (a : RunRow)
    → awaits_decision run_id a ≡ true
    → (a.id ≡ run_id) × (a.review ≡ none)
unfolding awaits_decision
awaits_decision-parts run_id a h = (ground (arith, h), ground (arith, h))

is_draft_ready : (s : State) → state_eq s draft_ready ≡ true → s ≡ draft_ready
unfolding state_eq
is_draft_ready draft_ready h = refl
is_draft_ready received h = absurd (ground arith)
is_draft_ready resolving h = absurd (ground arith)
is_draft_ready represented h = absurd (ground arith)
is_draft_ready refunded h = absurd (ground arith)
is_draft_ready won h = absurd (ground arith)
is_draft_ready lost h = absurd (ground arith)
is_draft_ready expired h = absurd (ground arith)
is_draft_ready (unlisted a) h = absurd (ground arith)

pub target_of-LeadsTo :
    (d : ReviewDecision) (to : State) → target_of d ≡ some to → LeadsTo d to (decision_text d)
unfolding target_of decision_text
target_of-LeadsTo submitted to h = (ground (arith, h), refl)
target_of-LeadsTo discarded to h = (ground (arith, h), refl)
target_of-LeadsTo (other_decision x) to h = absurd (ground (arith, h))

pub is_reviewable-parts :
    (i now : ℕ) (d : DisputeRow)
    → is_reviewable i now d ≡ true
    → (d.id ≡ i) × (d.state ≡ draft_ready) × (now < d.deadline_at)
unfolding is_reviewable
is_reviewable-parts i now d h =
    (ground (arith, h), is_draft_ready d.state (ground (arith, h)), ground (arith, h))

pub is_valid_reviewer-parts :
    (who : String)
    → is_valid_reviewer (codes who) ≡ true
    → (is_blank (codes who) ≡ false) × (length (codes who) ≤ 64) × (is_printable (codes who) ≡ true)
unfolding is_valid_reviewer
is_valid_reviewer-parts who h = (ground (arith, h), ground (arith, h), ground (arith, h))
