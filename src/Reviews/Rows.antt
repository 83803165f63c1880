-- ===== src/Reviews/Rows.antt =====
-- internal/api/reviews.go: how a decision moves the rows of the disputes table.
use dispute_router.Common.{
  ℕ, ◌≡◌, refl, inl, inr, String, true, false, List, Option, none, some, arith, Bool-cases,
}
use dispute_router.Common.Bytes.{codes}
use dispute_router.Database.Schema.{Db, DisputeRow}
use dispute_router.Database.Transaction.{Fate}
use dispute_router.Dispute.{State, draft_ready, state_eq}
use dispute_router.Reviews.{
  ReviewDecision, decide_run, decide_row, move_row, move_reviewed, is_reviewable, review_event,
  review_tx, review_to, review, target_of, is_valid_reviewer,
}
use dispute_router.System.Rows.{Evolves-refl}
use dispute_router.System.Rows.{Guard, Grows, Grows-same, Grows-update}
use dispute_router.System.Writes.{Keeps, Keeps-bind, begin_func-Grows, record_event-Keeps}

-- A drafted dispute, and where the decision sends it.
abbrev pub ReviewGuard : ReviewDecision → Guard
ReviewGuard decision d to = (d.state ≡ draft_ready) × (target_of decision ≡ some to)

is_reviewable-draft :
    (i now : ℕ) (d : DisputeRow) → is_reviewable i now d ≡ true → d.state ≡ draft_ready
unfolding is_reviewable state_eq
is_reviewable-draft i now d h = ground (arith, h)

module _ (decision : ReviewDecision) where
  decide_run-Keeps :
      (run_id : ℕ) (who : String) → Keeps (ReviewGuard decision) (decide_run run_id decision who)
  unfolding decide_run decide_row
  decide_run-Keeps run_id who s s' a h =
      Grows-same _ s.db s'.db (ground (arith, h)) (ground (arith, h))

  move_reviewed-Keeps :
      (i : ℕ) (to : State)
      → target_of decision ≡ some to
      → Keeps (ReviewGuard decision) (move_reviewed i to)
  unfolding move_reviewed move_row
  move_reviewed-Keeps i to e s s' a h =
      Grows-update _ s.db s'.db (is_reviewable i s.now) to false s.now
        (λ d k. (is_reviewable-draft i s.now d k, e)) (ground (arith, h)) (ground (arith, h))

  review_to-Grows :
      (o : Option State) (run_id : ℕ) (who : String) (fates : List Fate) (now : ℕ) (db : Db)
      → target_of decision ≡ o
      → Grows (ReviewGuard decision) db (review_to o run_id decision who fates now db).1
  unfolding review_to review_tx
  review_to-Grows none run_id who fates now db e = Evolves-refl _ db.next_id db.disputes
  review_to-Grows (some to) run_id who fates now db e =
      elim (Bool-cases (is_valid_reviewer (codes who))) [
        | inl v ↦ rw v (
            begin_func-Grows _ (review_tx run_id decision to who) fates now db (
              Keeps-bind _ (decide_run run_id decision who) _ (decide_run-Keeps run_id who) λ i.
                Keeps-bind _ (move_reviewed i to) _ (move_reviewed-Keeps i to e)
                  λ _. record_event-Keeps _ (review_event i run_id decision to who)))
        | inr v ↦ rw v (Evolves-refl _ db.next_id db.disputes)
      ]

  -- A decision moves drafted disputes only, to where it says.
  pub review-Grows :
      (run_id : ℕ) (who : String) (fates : List Fate) (now : ℕ) (db : Db)
      → Grows (ReviewGuard decision) db (review run_id decision who fates now db).1
  unfolding review
  review-Grows run_id who fates now db =
      review_to-Grows (target_of decision) run_id who fates now db refl
