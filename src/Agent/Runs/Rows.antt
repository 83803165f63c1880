-- ===== src/Agent/Runs/Rows.antt =====
-- internal/agent/store.go: how holding, releasing and recording move the rows of the disputes table.
use dispute_router.Common.{
  ℕ, suc, ◌≡◌, refl, true, false, List, Option, none, some, arith, find_where, update_where,
}
use dispute_router.Database.Schema.{Db, DisputeRow, RunRow}
use dispute_router.Database.Transaction.{
  Result, ok, err, Fate, works, fails, unseen, auto_commit, Session,
}
use dispute_router.Dispute.{State, received, resolving, state_eq}
use dispute_router.Agent.Runs.{
  Claim, Run, can_hold, hold_row, hold, is_claimed, move_claimed, release_row, release,
  same_attempt, add_run, insert_run, move_dispute, run_event, run_tx, record_run, next_state,
}
use dispute_router.Worker.Store.{moved}
use dispute_router.System.Rows.{Guard, Grows, Grows-same, Grows-update}
use dispute_router.System.Writes.{
  Keeps, Keeps-bind, Keeps-statement, begin_func-Grows, auto_commit-Grows, record_event-Keeps,
}

-- A dispute at the version of a claim, and a target.
abbrev pub ClaimGuard : Claim → State → Guard
ClaimGuard c to d t = (is_claimed c d ≡ true) × (t ≡ to)

-- A received dispute that is held.
abbrev pub HoldGuard : Guard
HoldGuard d to = (d.state ≡ received) × (to ≡ resolving)

can_hold-received : (i : ℕ) (d : DisputeRow) → can_hold i d ≡ true → d.state ≡ received
unfolding can_hold state_eq
can_hold-received i d h = ground (arith, h)

hold_row-Grows :
    (i : ℕ) (db : Db) (o : Option DisputeRow) (c : Claim) (db' : Db)
    → hold_row i db o ≡ ok (c, db')
    → Grows HoldGuard db db'
unfolding hold_row
hold_row-Grows i db none c db' h = absurd (ground (arith, h))
hold_row-Grows i db (some d) c db' h =
    Grows-update HoldGuard db db' (can_hold i) resolving false 0
      (λ r k. (can_hold-received i r k, refl)) (ground (arith, h)) (ground (arith, h))

-- Holding moves a received dispute to resolving.
pub hold-Grows : (i : ℕ) (f : Fate) (db : Db) → Grows HoldGuard db (hold i f db).1
unfolding hold
hold-Grows i f db =
    auto_commit-Grows HoldGuard f db (hold_row i db (find_where (can_hold i) db.disputes))
      (hold_row-Grows i db (find_where (can_hold i) db.disputes))

module _ (c : Claim) where
  release_row-Grows :
      (db : Db) (o : Option DisputeRow) (a : Unit {0}) (db' : Db)
      → release_row c db o ≡ ok (a, db')
      → Grows (ClaimGuard c received) db db'
  unfolding release_row move_claimed
  release_row-Grows db none a db' h = absurd (ground (arith, h))
  release_row-Grows db (some d) a db' h =
      Grows-update _ db db' (is_claimed c) received false 0 (λ r k. (k, refl)) (ground (arith, h))
        (ground (arith, h))

  -- A release moves the claimed version back.
  pub release-Grows : (f : Fate) (db : Db) → Grows (ClaimGuard c received) db (release c f db).1
  unfolding release
  release-Grows f db =
      auto_commit-Grows _ f db (release_row c db (find_where (is_claimed c) db.disputes))
        (release_row-Grows db (find_where (is_claimed c) db.disputes))

  add_run-Grows :
      (G : Guard) (r : Run) (o : Option RunRow) (s s' : Session) (a : Unit {0})
      → add_run c r s o ≡ ok (a, s')
      → Grows G s.db s'.db
  unfolding add_run
  add_run-Grows G r none s s' a h = Grows-same G s.db s'.db (ground (arith, h)) (ground (arith, h))
  add_run-Grows G r (some x) s s' a h = absurd (ground (arith, h))

  insert_run-Keeps : (G : Guard) (r : Run) → Keeps G (insert_run c r)
  unfolding insert_run
  insert_run-Keeps G r =
      Keeps-statement G _ λ s. add_run-Grows G r (find_where (same_attempt c) s.db.runs) s

  move_dispute-Keeps : (to : State) → Keeps (ClaimGuard c to) (move_dispute c to)
  unfolding move_dispute move_claimed
  move_dispute-Keeps to s s' a h =
      Grows-update _ s.db s'.db (is_claimed c) to false 0 (λ r k. (k, refl)) (ground (arith, h))
        (ground (arith, h))

  -- Recording a run moves the claimed version to the run's next state.
  pub record_run-Grows :
      (r : Run) (fates : List Fate) (now : ℕ) (db : Db)
      → Grows (ClaimGuard c (next_state r.outcome r.escalated).0) db (record_run c r fates now db).1
  unfolding record_run run_tx
  record_run-Grows r fates now db =
      let to = (next_state r.outcome r.escalated).0 in
      begin_func-Grows _ (run_tx c r to) fates now db (
        Keeps-bind _ (insert_run c r) _ (insert_run-Keeps _ r) λ _.
          Keeps-bind _ (move_dispute c to) _ (move_dispute-Keeps to)
            λ _. record_event-Keeps _ (run_event c r to))

hold_row-found :
    (i : ℕ) (db : Db) (o : Option DisputeRow) (c : Claim) (db' : Db)
    → hold_row i db o ≡ ok (c, db')
    → (d : DisputeRow) × (o ≡ some d)
      × (c.dispute_id ≡ d.id)
      × (c.version ≡ suc d.version)
      × (db'.disputes ≡ update_where (can_hold i) (moved resolving false 0) db.disputes)
      × (db'.next_id ≡ db.next_id)
unfolding hold_row
hold_row-found i db none c db' h = absurd (ground (arith, h))
hold_row-found i db (some d) c db' h =
    (d, refl, ground (arith, h), ground (arith, h), ground (arith, h), ground (arith, h))

commit-found :
    (i : ℕ) (f : Fate) (db : Db) (o : Result (Claim × Db)) (c : Claim)
    → (auto_commit f db o).0 ≡ ok c
    → o ≡ ok (c, (auto_commit f db o).1)
unfolding auto_commit
commit-found i works db (ok (a, db')) c h = ground (arith, h)
commit-found i unseen db (ok (a, db')) c h = absurd (ground (arith, h))
commit-found i fails db (ok (a, db')) c h = absurd (ground (arith, h))
commit-found i works db (err e) c h = absurd (ground (arith, h))
commit-found i fails db (err e) c h = absurd (ground (arith, h))
commit-found i unseen db (err e) c h = absurd (ground (arith, h))

pub hold-committed :
    (i : ℕ) (f : Fate) (db : Db) (c : Claim)
    → (hold i f db).0 ≡ ok c
    → hold_row i db (find_where (can_hold i) db.disputes) ≡ ok (c, (hold i f db).1)
unfolding hold
hold-committed i f db = commit-found i f db (hold_row i db (find_where (can_hold i) db.disputes))

-- A claim that is returned is of a row that was there, and has been moved.
pub hold-found :
    (i : ℕ) (f : Fate) (db : Db) (c : Claim)
    → (hold i f db).0 ≡ ok c
    → (d : DisputeRow) × (find_where (can_hold i) db.disputes ≡ some d)
      × (c.dispute_id ≡ d.id)
      × (c.version ≡ suc d.version)
      × ((hold i f db).1.disputes ≡ update_where (can_hold i) (moved resolving false 0) db.disputes)
      × ((hold i f db).1.next_id ≡ db.next_id)
hold-found i f db c h =
    hold_row-found i db (find_where (can_hold i) db.disputes) c (hold i f db).1
      (hold-committed i f db c h)
