-- ===== src/Worker/Pool/Visit.antt =====
-- internal/worker/worker.go, `nextVisit`: a dispute that goes back into the index goes outside the
-- window that claims are made from.
use dispute_router.Common.{ℕ, ◌+◌, ◌≤◌, ◌<◌, ◌≡◌, refl, ◌⊎◌, inl, inr, Option, none, some, arith}
use dispute_router.Database.Transaction.{
  stale_candidate, not_found, Result, ok, err, Fate, works, fails, unseen,
}
use dispute_router.Worker.Rules.{Action, refund, close, escalate, expire, skip, Decision, decide}
use dispute_router.Worker.Store.{Loaded, apply, load}
use dispute_router.Worker.Locks.{Lock, acquire}
use dispute_router.Worker.Deadlines.{ZSet, of_id, unix, member_eq, schedule, entry_at}
use dispute_router.Worker.Deadlines.Index.{score_of, score_of-zadd}
use dispute_router.Worker.Pool.{
  Options, World, Round, next_visit, reschedule, reschedule_soon, after_apply, act, after_load,
  after_acquire, handle,
}

-- Where the dispute is out of the claim window of the clock's `now`: not in the index, or later.
abbrev pub OutOfReach : Options → ℕ → ℕ → ZSet → Type 0
OutOfReach o now id z =
    (score_of (of_id id) z ≡ none)
    ⊎ ((s : ℕ) × (score_of (of_id id) z ≡ some s) × (unix (now + o.lookahead) < s))

next_visit-late :
    (lookahead now later preferred : ℕ)
    → now ≤ later
    → unix (now + lookahead) < unix (next_visit lookahead later preferred)
unfolding next_visit
next_visit-late lookahead now later preferred h = ground arith

schedule-score :
    (id at : ℕ) (fate : Fate) (z : ZSet)
    → ((schedule id at fate z).1 ≡ z)
      ⊎ (score_of (of_id id) (schedule id at fate z).1 ≡ some (unix at))
unfolding schedule entry_at member_eq
schedule-score id at fails z = inl refl
schedule-score id at works z =
    inr (ground (arith, score_of-zadd (of_id id) (record { member = of_id id; score = unix at }) z))
schedule-score id at unseen z =
    inr (ground (arith, score_of-zadd (of_id id) (record { member = of_id id; score = unix at }) z))

module _ (o : Options) (r : Round) (id now : ℕ) (h : now ≤ r.scheduled_at) where
  reschedule-OutOfReach :
      (preferred : ℕ) (w : World)
      → OutOfReach o now id w.index
      → OutOfReach o now id (reschedule o r id preferred w).index
  unfolding reschedule
  reschedule-OutOfReach preferred w g =
      elim (schedule-score id (next_visit o.lookahead r.scheduled_at preferred) r.schedule_fate
        w.index) [
          | inl same ↦ rw same g
          | inr e ↦ inr (
            unix (next_visit o.lookahead r.scheduled_at preferred),
            e,
            next_visit-late o.lookahead now r.scheduled_at preferred h,
          )
        ]

  after_apply-OutOfReach :
      (x : Result (Unit {0})) (w : World)
      → OutOfReach o now id w.index
      → OutOfReach o now id (after_apply o r id w x).index
  unfolding after_apply reschedule_soon
  after_apply-OutOfReach (ok x) w g = g
  after_apply-OutOfReach (err stale_candidate) w g = g
  after_apply-OutOfReach (err e) w g = reschedule-OutOfReach 0 w g

  act-OutOfReach :
      (a : Action) (l : Loaded) (d : Decision) (w : World)
      → OutOfReach o now id w.index
      → OutOfReach o now id (act a o r id l d w).index
  unfolding act
  act-OutOfReach skip l d w g = g
  act-OutOfReach escalate l d w g = reschedule-OutOfReach l.deadline_at w g
  act-OutOfReach refund l d w g =
      after_apply-OutOfReach (apply l d o.id r.apply_fates r.applied_at w.db).0 _ g
  act-OutOfReach close l d w g =
      after_apply-OutOfReach (apply l d o.id r.apply_fates r.applied_at w.db).0 _ g
  act-OutOfReach expire l d w g =
      after_apply-OutOfReach (apply l d o.id r.apply_fates r.applied_at w.db).0 _ g

  after_load-OutOfReach :
      (x : Result Loaded) (w : World)
      → OutOfReach o now id w.index
      → OutOfReach o now id (after_load o r id w x).index
  unfolding after_load reschedule_soon
  after_load-OutOfReach (ok l) w g =
      act-OutOfReach (decide l.candidate r.decided_at).action l (decide l.candidate r.decided_at) w
        g
  after_load-OutOfReach (err not_found) w g = g
  after_load-OutOfReach (err e) w g = reschedule-OutOfReach 0 w g

  after_acquire-OutOfReach :
      (x : Result (Option Lock)) (w : World)
      → OutOfReach o now id w.index
      → OutOfReach o now id (after_acquire o r id w x).index
  unfolding after_acquire reschedule_soon
  after_acquire-OutOfReach (err e) w g = reschedule-OutOfReach 0 w g
  after_acquire-OutOfReach (ok none) w g = reschedule-OutOfReach 0 w g
  after_acquire-OutOfReach (ok (some lock)) w g =
      after_load-OutOfReach (load id r.load_fate w.db) w g

  -- A claimed dispute is not claimable again by the clock that it was claimed at, on any path through
  -- its handler: it is either out of the index or scored past the claim window. So a tick that keeps
  -- claiming moves on to other disputes.
  pub handle-OutOfReach :
      (w : World) → score_of (of_id id) w.index ≡ none → OutOfReach o now id (handle o r id w).index
  unfolding handle
  handle-OutOfReach w g =
      after_acquire-OutOfReach (acquire o.lock_ttl r.token r.lock_fate id r.locked_at w.locks).0 _
        (inl g)
