-- ===== src/System/Edges.antt =====
-- The state machine of a dispute, and the moves of each part of the system in it.
use dispute_router.Common.{
  ℕ, ◌<◌, ◌≡◌, sym, subst, subst₂, ◌⊎◌, inl, inr, Bool, true, false, List, [], ◌∷◌, none, some,
  arith, All, str_eq, eq_iff,
}
use dispute_router.Agent.Runs.{next_state}
use dispute_router.Database.Schema.{
  Db, DisputeRow, RunOutcome, drafted, rejected, insufficient_evidence, budget_exceeded, run_failed,
}
use dispute_router.Dispute.{
  State, received, resolving, draft_ready, represented, refunded, won, lost, expired, state_of,
}
use dispute_router.Ingest.Event.{RulingWebhook, validate_ruling}
use dispute_router.Reviews.{ReviewDecision, submitted, discarded, other_decision, target_of}
use dispute_router.System.Known.{Fits}
use dispute_router.System.Rows.{Guard, Evolves-allow, Grows}
use dispute_router.Worker.Rules.{Candidate, decide}
use dispute_router.Worker.Store.{moved}

-- The state machine: where a dispute stands, and where it may go. The flag says whether a reviewer may
-- submit a draft.
pub data Edge : Bool → State → State → Type 0 where
  held : {flag : Bool} → Edge flag received resolving
  refunded_early : {flag : Bool} → Edge flag received refunded
  expired_early : {flag : Bool} → Edge flag received expired
  given_back : {flag : Bool} → Edge flag resolving received
  put_to_review : {flag : Bool} → Edge flag resolving draft_ready
  refunded_held : {flag : Bool} → Edge flag resolving refunded
  expired_held : {flag : Bool} → Edge flag resolving expired
  discarded_draft : {flag : Bool} → Edge flag draft_ready received
  submitted_draft : Edge true draft_ready represented
  expired_draft : {flag : Bool} → Edge flag draft_ready expired
  ruled_won : {flag : Bool} → Edge flag represented won
  ruled_lost : {flag : Bool} → Edge flag represented lost

abbrev pub Lifecycle : Bool → Guard
Lifecycle flag d to = Edge flag d.state to

-- The policy's moves, from each state that it acts on.
decide-from :
    (c : Candidate) (now : ℕ) (to : State)
    → (decide c now).to_state ≡ some to
    → (((c.state ≡ received) ⊎ (c.state ≡ resolving)) × (to ≡ refunded))
      ⊎ (((c.state ≡ received) ⊎ (c.state ≡ resolving) ⊎ (c.state ≡ draft_ready)) × (to ≡ expired))
unfolding decide
decide-from c now to h = ground (arith, h)

pub decide-Edge :
    (flag : Bool) (c : Candidate) (now : ℕ) (to : State)
    → (decide c now).to_state ≡ some to
    → Edge flag c.state to
decide-Edge flag c now to h = by_case (decide-from c now to h)
  where
    by_case :
        (((c.state ≡ received) ⊎ (c.state ≡ resolving)) × (to ≡ refunded))
          ⊎ (((c.state ≡ received) ⊎ (c.state ≡ resolving) ⊎ (c.state ≡ draft_ready))
              × (to ≡ expired))
        → Edge flag c.state to
    by_case (inl (inl a, b)) = subst₂ (Edge flag) (sym a) (sym b) refunded_early
    by_case (inl (inr a, b)) = subst₂ (Edge flag) (sym a) (sym b) refunded_held
    by_case (inr (inl a, b)) = subst₂ (Edge flag) (sym a) (sym b) expired_early
    by_case (inr (inr (inl a), b)) = subst₂ (Edge flag) (sym a) (sym b) expired_held
    by_case (inr (inr (inr a), b)) = subst₂ (Edge flag) (sym a) (sym b) expired_draft

-- A validated ruling is one of the two verdicts.
pub verdict-Edge :
    (flag : Bool) (e : RulingWebhook)
    → validate_ruling e ≡ none
    → Edge flag represented (state_of e.event_data.outcome)
unfolding validate_ruling state_of
verdict-Edge flag e h = by_case (verdict h)
  where
    verdict :
        validate_ruling e ≡ none
        → (str_eq e.event_data.outcome "won" ≡ true) ⊎ (str_eq e.event_data.outcome "lost" ≡ true)
    verdict h = ground (arith, h)

    by_case :
        (str_eq e.event_data.outcome "won" ≡ true) ⊎ (str_eq e.event_data.outcome "lost" ≡ true)
        → Edge flag represented (state_of e.event_data.outcome)
    by_case (inl w) =
        subst (λ o. Edge flag represented (state_of o))
          (sym ((eq_iff e.event_data.outcome "won").0 w)) ruled_won
    by_case (inr l) =
        subst (λ o. Edge flag represented (state_of o))
          (sym ((eq_iff e.event_data.outcome "lost").0 l)) ruled_lost

-- Does the decision send the draft off?
unfoldable pub is_submission : ReviewDecision → Bool
is_submission submitted = true
is_submission discarded = false
is_submission (other_decision s) = false

pub review-Edge :
    (d : ReviewDecision) (to : State)
    → target_of d ≡ some to
    → Edge (is_submission d) draft_ready to
unfolding target_of is_submission
review-Edge submitted to h = subst (Edge true draft_ready) (ground (arith, h)) submitted_draft
review-Edge discarded to h = subst (Edge false draft_ready) (ground (arith, h)) discarded_draft
review-Edge (other_decision s) to h = absurd (ground (arith, h))

pub run-Edge : (flag : Bool) (o : RunOutcome) (b : Bool) → Edge flag resolving (next_state o b).0
unfolding next_state
run-Edge flag o true = put_to_review
run-Edge flag drafted false = put_to_review
run-Edge flag insufficient_evidence false = put_to_review
run-Edge flag rejected false = given_back
run-Edge flag budget_exceeded false = given_back
run-Edge flag run_failed false = given_back

-- A row of this id has the version's state, or is past the version.
abbrev pub KnownIn : ℕ → ℕ → State → Db → Type 0
KnownIn id version state db = (id < db.next_id) × All (Fits id version state) db.disputes

-- Guards that imply the state machine by themselves.
pub free :
    (flag : Bool) (G : Guard) (db db' : Db)
    → ((d : DisputeRow) (to : State) → G d to → Edge flag d.state to)
    → Grows G db db'
    → Grows (Lifecycle flag) db db'
free flag G db db' k e =
    Evolves-allow G (Lifecycle flag) (λ d. Unit {0}) (λ d to r at i g. (k d to g, tt)) db.next_id
      db'.next_id db.disputes db'.disputes (λ d h. tt) (every db.disputes) e
  where
    every : (ds : List DisputeRow) → All (λ d. Unit {0}) ds
    every [] = tt
    every (d ∷ ds) = (tt, every ds)

-- Guards on a version, which imply it by what is known of the version.
moved-Fits :
    (id version : ℕ) (state to : State) (r : Bool) (at : ℕ) (d : DisputeRow)
    → Fits id version state d
    → Fits id version state (moved to r at d)
unfolding moved
moved-Fits id v st to r at d f = λ same. inl (ground (arith, f same))

pub versioned :
    (flag : Bool) (G : Guard) (id version : ℕ) (state : State) (db db' : Db)
    → KnownIn id version state db
    → ((d : DisputeRow) (to : State)
        → G d to
        → (d.id ≡ id) × (d.version ≡ version) × (d.state ≡ state → Edge flag d.state to))
    → Grows G db db'
    → Grows (Lifecycle flag) db db'
versioned flag G id v st db db' (lt, fits) k e =
    Evolves-allow G (Lifecycle flag) (Fits id v st)
      (λ d to r at i g. (allowed d to (k d to g) (i (k d to g).0), moved-Fits id v st to r at d i))
      db.next_id db'.next_id db.disputes db'.disputes (λ d h same. absurd (omega arith)) fits e
  where
    allowed :
        (d : DisputeRow) (to : State)
        → (d.id ≡ id) × (d.version ≡ v) × (d.state ≡ st → Edge flag d.state to)
        → (v < d.version) ⊎ ((v ≡ d.version) × (d.state ≡ st))
        → Edge flag d.state to
    allowed d to (a, b, f) (inl lt') = absurd (omega arith)
    allowed d to (a, b, f) (inr (c, same)) = f same
