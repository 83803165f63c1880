-- ===== src/Reviews/Once.antt =====
-- internal/api/reviews.go: a run is decided once.
use dispute_router.Common.{
  ℕ, ◌≡◌, ◌⊎◌, refl, ap, ◌∙◌, inl, inr, String, false, List, [], ◌∷◌, Option, none, some, arith,
  find_where, update_where, Bool-cases,
}
use dispute_router.Common.Bytes.{codes}
use dispute_router.Database.Atomic.{begin_func-Ends, begin_func-fails}
use dispute_router.Database.Schema.{Db, RunRow}
use dispute_router.Database.Transaction.{
  Error, driver_error, not_reviewable, invalid_input, ok, err, Fate, works, fails, unseen, Session,
  session, next_fate, later_fates,
}
use dispute_router.Dispute.{State}
use dispute_router.Reviews.{
  ReviewDecision, decide_row, decide_run, awaits_decision, review_tx, review_to, review, target_of,
  is_valid_reviewer,
}
use dispute_router.Reviews.Decided.{marked, review_tx-Decided, review-Decided}

-- No run of the table waits for a decision once each one that did has got it.
reviewed-none :
    (run_id : ℕ) (says who : String) (now : ℕ) (runs : List RunRow)
    → find_where
        (awaits_decision run_id)
        (update_where (awaits_decision run_id) (marked says who now) runs)
      ≡ none
unfolding find_where update_where awaits_decision
reviewed-none run_id says who now [] = refl
reviewed-none run_id says who now (a ∷ runs) = elim (Bool-cases (awaits_decision run_id a)) [
  | inl e ↦ rw e (rw (decided a) (reviewed-none run_id says who now runs))
  | inr e ↦ rw e (rw e (reviewed-none run_id says who now runs))
]
  where
    decided : (a : RunRow) → awaits_decision run_id (marked says who now a) ≡ false
    decided a = ground arith

review-refused :
    (run_id : ℕ) (decision : ReviewDecision) (who : String) (fates : List Fate) (now : ℕ) (db : Db)
    → find_where (awaits_decision run_id) db.runs ≡ none
    → (x : Error) × (review run_id decision who fates now db ≡ (err x, db))
unfolding review review_to review_tx decide_run decide_row
review-refused run_id decision who fates now db h = by_target (target_of decision)
  where
    refused :
        (to : State) (s : Session)
        → find_where (awaits_decision run_id) s.db.runs ≡ none
        → (x : Error) × (review_tx run_id decision to who s ≡ err x)
    refused to s e = by_fate (next_fate s.fates) refl
      where
        by_fate :
            (f : Fate)
            → next_fate s.fates ≡ f
            → (x : Error) × (review_tx run_id decision to who s ≡ err x)
        by_fate works k = (not_reviewable, rw (k, e) refl)
        by_fate fails k = (driver_error, rw k refl)
        by_fate unseen k = (driver_error, rw k refl)

    by_target :
        (o : Option State)
        → (x : Error) × (review_to o run_id decision who fates now db ≡ (err x, db))
    by_target none = (invalid_input, refl)
    by_target (some to) = elim (Bool-cases (is_valid_reviewer (codes who))) [
      | inr v ↦ (invalid_input, rw v refl)
      | inl v ↦ rw v (
          begin_func-fails (review_tx run_id decision to who) fates now db
            (λ later. refused to (session db now later) h))
    ]

-- A reviewer's decision on any run, and what becomes of its round trips.
pub record ReviewCall : Type 0 where
  pub run_id : ℕ
  pub decision : ReviewDecision
  pub reviewer : String
  pub fates : List Fate
  pub now : ℕ

abbrev after_call : ReviewCall → Db → Db
after_call c db = (review c.run_id c.decision c.reviewer c.fates c.now db).1

unfoldable pub run_reviews : List ReviewCall → Db → Db
run_reviews [] db = db
run_reviews (c ∷ cs) db = run_reviews cs (review c.run_id c.decision c.reviewer c.fates c.now db).1

-- A mark on any runs leaves none more to wait for a decision.
reviewed-still :
    (run_id other : ℕ) (says who : String) (now : ℕ) (runs : List RunRow)
    → find_where (awaits_decision run_id) runs ≡ none
    → find_where
        (awaits_decision run_id)
        (update_where (awaits_decision other) (marked says who now) runs)
      ≡ none
unfolding find_where update_where awaits_decision
reviewed-still run_id other says who now [] h = refl
reviewed-still run_id other says who now (a ∷ runs) h =
    elim (Bool-cases (awaits_decision run_id a)) [
      | inl e ↦ absurd (ground (arith, rw e at h))
      | inr e ↦ elim (Bool-cases (awaits_decision other a)) [
        | inl o ↦ rw o (rw (decided a) (reviewed-still run_id other says who now runs (rw e at h)))
        | inr o ↦ rw o (rw e (reviewed-still run_id other says who now runs (rw e at h)))
      ]
    ]
  where
    decided : (a : RunRow) → awaits_decision run_id (marked says who now a) ≡ false
    decided a = ground arith

-- A transaction of a decision leaves the runs as they were, or marks the one that it names.
review-runs :
    (c : ReviewCall) (db : Db)
    → ((after_call c db).runs ≡ db.runs)
      ⊎ ((says : String) × ((after_call c db).runs
            ≡ update_where (awaits_decision c.run_id) (marked says c.reviewer c.now) db.runs))
unfolding review review_to
review-runs c db = by_target (target_of c.decision) refl
  where
    by_target :
        (o : Option State)
        → target_of c.decision ≡ o
        → ((review_to o c.run_id c.decision c.reviewer c.fates c.now db).1.runs ≡ db.runs)
          ⊎ ((says : String) × ((review_to o c.run_id c.decision c.reviewer c.fates c.now db).1.runs
                ≡ update_where (awaits_decision c.run_id) (marked says c.reviewer c.now) db.runs))
    by_target none e = inl refl
    by_target (some to) e = elim (Bool-cases (is_valid_reviewer (codes c.reviewer))) [
      | inr v ↦ rw v (inl refl)
      | inl v ↦
          rw v
            (elim (begin_func-Ends (review_tx c.run_id c.decision to c.reviewer) c.now db c.fates) [
              | inl (x, r, same) ↦ inl (ap (λ d. d.runs) same)
              | inr (u, s, done, same, answer, balanced) ↦
                  let d =
                    review_tx-Decided c.run_id c.decision to c.reviewer
                      (session db c.now (later_fates c.fates)) s u e v done in
                  inr (d.says, ap (λ x. x.runs) same ∙ d.runs_after)
            ])
    ]

run_reviews-none :
    (cs : List ReviewCall) (run_id : ℕ) (db : Db)
    → find_where (awaits_decision run_id) db.runs ≡ none
    → find_where (awaits_decision run_id) (run_reviews cs db).runs ≡ none
unfolding run_reviews
run_reviews-none [] run_id db h = h
run_reviews-none (c ∷ cs) run_id db h =
    run_reviews-none cs run_id (after_call c db) (elim (review-runs c db) [
      | inl same ↦ ap (find_where (awaits_decision run_id)) same ∙ h
      | inr (says, set) ↦
          ap (find_where (awaits_decision run_id)) set
          ∙ reviewed-still run_id c.run_id says c.reviewer c.now db.runs h
    ])

-- A run is decided once: after a decision on it that was accepted, and whatever decisions reviewers have made since on any runs,
-- with any ends, another decision on it is refused and changes nothing, whoever makes it and whenever.
pub review-once :
    (run_id : ℕ) (first second : ReviewDecision) (who whom : String) (fates later : List Fate)
    (now then_at : ℕ) (since : List ReviewCall) (db : Db)
    → (review run_id first who fates now db).0 ≡ ok tt
    → let after = run_reviews since (review run_id first who fates now db).1 in
      (x : Error) × (review run_id second whom later then_at after ≡ (err x, after))
review-once run_id first second who whom fates later now then_at since db h =
    let d = review-Decided run_id first who fates now db h in
    let decided = (review run_id first who fates now db).1 in
    review-refused run_id second whom later then_at (run_reviews since decided) (
      run_reviews-none since run_id decided (
        ap (find_where (awaits_decision run_id)) d.runs_after
        ∙ reviewed-none run_id d.says who now db.runs))
