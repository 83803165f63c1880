-- ===== src/Reviews/Decided.antt =====
-- internal/api/reviews.go: what a decision that was accepted did.
use mathlib.Core.List.{Memᴰ}
use dispute_router.Common.{
  ℕ, suc, ◌≡◌, ◌<◌, ◌≤◌, refl, sym, subst, ap, ◌∙◌, inl, inr, length, String, true, false, List,
  Option, none, some, arith, find_where, update_where, Bool-cases,
}
use dispute_router.Common.Bytes.{codes}
use dispute_router.Database.Atomic.{Ends, begin_func-Ends, bind-eq-ok, sent-eq-ok}
use dispute_router.Database.Schema.{Db, DisputeRow, RunRow}
use dispute_router.Database.Transaction.{
  ok, Fate, Session, session, next_fate, later_fates, begin_func,
}
use dispute_router.Dispute.{State, draft_ready}
use dispute_router.Events.{record_event}
use dispute_router.Reviews.{
  ReviewDecision, decision_text, decide_row, decide_run, awaits_decision, move_row, move_reviewed,
  is_reviewable, review_tx, review_to, review, reviewed, target_of, is_valid_reviewer, is_blank,
  is_printable,
}
use dispute_router.Worker.Store.{moved}
use dispute_router.Reviews.Found.{
  LeadsTo, find_where-some, awaits_decision-parts, target_of-LeadsTo, is_reviewable-parts,
  is_valid_reviewer-parts,
}

-- A run with its decision.
abbrev pub marked : String → String → ℕ → RunRow → RunRow
marked says reviewer now a = record a {
  review = some says;
  reviewed_by = some reviewer;
  reviewed_at = some now;
}

-- What a decision has found and done.
pub record Decided (run_id : ℕ) (decision : ReviewDecision) (reviewer : String) (now : ℕ)
    (db db' : Db) : Type 0 where
  pub to : State
  pub the_run : RunRow
  pub the_row : DisputeRow
  pub says : String
  pub targeted : LeadsTo decision to says
  pub has_name : is_blank (codes reviewer) ≡ false
  pub short_name : length (codes reviewer) ≤ 64
  pub printable_name : is_printable (codes reviewer) ≡ true
  pub run_found : Memᴰ the_run db.runs
  pub run_named : the_run.id ≡ run_id
  pub not_decided : the_run.review ≡ none
  pub row_found : Memᴰ the_row db.disputes
  pub row_named : the_row.id ≡ the_run.dispute_id
  pub is_drafted : the_row.state ≡ draft_ready
  pub before_deadline : now < the_row.deadline_at
  pub runs_after :
      db'.runs ≡ update_where (awaits_decision run_id) (marked says reviewer now) db.runs
  pub rows_after :
      db'.disputes
      ≡ update_where
          (is_reviewable the_run.dispute_id now)
          (λ d. record d { state = to; version = suc d.version })
          db.disputes
  pub same_ledger : (db'.journals ≡ db.journals) × (db'.legs ≡ db.legs) × (db'.charges ≡ db.charges)

decide_row-ok :
    (run_id : ℕ) (decision : ReviewDecision) (who : String) (s s' : Session) (o : Option RunRow)
    (i : ℕ)
    → decide_row run_id decision who s o ≡ ok (i, s')
    → (a : RunRow) × (o ≡ some a)
      × (i ≡ a.dispute_id)
      × (s'.db ≡ record s.db {
        runs = update_where (awaits_decision run_id) (reviewed decision who s.now) s.db.runs;
      })
      × (s'.now ≡ s.now)
unfolding decide_row
decide_row-ok run_id decision who s s' none i k = absurd (ground (arith, k))
decide_row-ok run_id decision who s s' (some a) i k =
    (a, refl, ground (arith, k), ground (arith, k), ground (arith, k))

move_row-ok :
    (i : ℕ) (to : State) (s s' : Session) (o : Option DisputeRow) (u : Unit {0})
    → move_row i to s o ≡ ok (u, s')
    → (d : DisputeRow) × (o ≡ some d)
      × (s'.db ≡ record s.db {
        disputes = update_where (is_reviewable i s.now) (moved to false s.now) s.db.disputes;
      })
unfolding move_row
move_row-ok i to s s' none u k = absurd (ground (arith, k))
move_row-ok i to s s' (some d) u k = (d, refl, ground (arith, k))

pub review_tx-Decided :
    (run_id : ℕ) (decision : ReviewDecision) (to : State) (who : String) (s s' : Session)
    (u : Unit {0})
    → target_of decision ≡ some to
    → is_valid_reviewer (codes who) ≡ true
    → review_tx run_id decision to who s ≡ ok (u, s')
    → Decided run_id decision who s.now s.db s'.db
unfolding review_tx decide_run move_reviewed record_event reviewed moved
review_tx-Decided run_id decision to who s s' u e v h =
    let (i, t, first, h1) = bind-eq-ok (decide_run run_id decision who) _ s h in
    let (u1, t', second, h2) = bind-eq-ok (move_reviewed i to) _ t h1 in
    let (a, found, whose, after, clock) =
      decide_row-ok run_id decision who (record s { fates = later_fates s.fates }) t
        (find_where (awaits_decision run_id) s.db.runs) i
        (sent-eq-ok (next_fate s.fates) _ first) in
    let (d, there, later) =
      move_row-ok i to (record t { fates = later_fates t.fates }) t'
        (find_where (is_reviewable i t.now) t.db.disputes) u1
        (sent-eq-ok (next_fate t.fates) _ second) in
    let disputes : t.db.disputes ≡ s.db.disputes = ground (arith, after) in
    let runs : t'.db.runs ≡ t.db.runs = ground (arith, later) in
    let kept : s'.db ≡ record t'.db { events = s'.db.events } = ground (arith, h2) in
    let same : is_reviewable i t.now ≡ is_reviewable a.dispute_id s.now =
      (λ j. is_reviewable (whose j) (clock j)) in
    let (run_in, run_fits) = find_where-some (awaits_decision run_id) s.db.runs a found in
    let (row_in, row_fits) =
      find_where-some (is_reviewable a.dispute_id s.now) s.db.disputes d
        (sym (λ j. find_where (same j) (disputes j)) ∙ there) in
    let waits = awaits_decision-parts run_id a run_fits in
    let drafted = is_reviewable-parts a.dispute_id s.now d row_fits in
    record {
      to = to;
      the_run = a;
      the_row = d;
      says = decision_text decision;
      targeted = target_of-LeadsTo decision to e;
      has_name = (is_valid_reviewer-parts who v).0;
      short_name = (is_valid_reviewer-parts who v).1;
      printable_name = (is_valid_reviewer-parts who v).2;
      run_found = run_in;
      run_named = waits.0;
      not_decided = waits.1;
      row_found = row_in;
      row_named = drafted.0;
      is_drafted = drafted.1;
      before_deadline = drafted.2;
      runs_after = ground (arith, kept, runs, after);
      rows_after =
          ap (λ x. x.disputes) kept
          ∙ ap (λ x. x.disputes) later
          ∙ (λ j. update_where (same j) (moved to false (clock j)) (disputes j));
      same_ledger = (
        ground (arith, kept, later, after),
        ground (arith, kept, later, after),
        ground (arith, kept, later, after),
      );
    }

review_to-Decided :
    (o : Option State) (run_id : ℕ) (decision : ReviewDecision) (who : String) (fates : List Fate)
    (now : ℕ) (db : Db)
    → target_of decision ≡ o
    → (review_to o run_id decision who fates now db).0 ≡ ok tt
    → Decided run_id decision who now db (review_to o run_id decision who fates now db).1
unfolding review_to
review_to-Decided none run_id decision who fates now db e h = absurd (ground (arith, h))
review_to-Decided (some to) run_id decision who fates now db e h =
    elim (Bool-cases (is_valid_reviewer (codes who))) [
      | inr v ↦ absurd (ground (arith, rw v at h))
      | inl v ↦
          rw v
            (by_end v (rw v at h) (begin_func-Ends (review_tx run_id decision to who) now db fates))
    ]
  where
    by_end :
        is_valid_reviewer (codes who) ≡ true
        → (begin_func (review_tx run_id decision to who) fates now db).0 ≡ ok tt
        → Ends
            (review_tx run_id decision to who)
            fates
            now
            db
            (begin_func (review_tx run_id decision to who) fates now db).0
            (begin_func (review_tx run_id decision to who) fates now db).1
        → Decided run_id decision who now db
            (begin_func (review_tx run_id decision to who) fates now db).1
    by_end v k (inl (x, r, same)) = absurd (ground (arith, k, r))
    by_end v k (inr (u, s, done, same, answer, balanced)) =
        subst (Decided run_id decision who now db) (sym same) (
          review_tx-Decided run_id decision to who (session db now (later_fates fates)) s u e v
            done)

-- A decision that is accepted is by a reviewer whose name is not blank, has at most 64 code points and is printable, on a run
-- of that id that had no review, whose dispute was drafted, with its deadline to come. It has marked that run with the decision
-- and the reviewer, moved that dispute to represented if it submits and to received if it discards, and left the journals,
-- the legs and the charges as they were.
pub review-Decided :
    (run_id : ℕ) (decision : ReviewDecision) (reviewer : String) (fates : List Fate) (now : ℕ)
    (db : Db)
    → (review run_id decision reviewer fates now db).0 ≡ ok tt
    → Decided run_id decision reviewer now db (review run_id decision reviewer fates now db).1
unfolding review
review-Decided run_id decision who fates now db h =
    review_to-Decided (target_of decision) run_id decision who fates now db refl h
