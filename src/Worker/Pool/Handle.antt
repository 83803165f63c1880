-- ===== src/Worker/Pool/Handle.antt =====
-- internal/worker/worker.go: what a handler may do to the database, and when.
use dispute_router.Common.{ℕ, ◌≡◌, refl, ◌∙◌, ◌⊎◌, inl, inr, Option, none, some, arith}
use dispute_router.Common.Int.{pos, ◌≤ℤ◌}
use dispute_router.Database.Schema.{Db}
use dispute_router.Database.Transaction.{Result, ok, err}
use dispute_router.Dispute.{alert}
use dispute_router.Worker.Rules.{Action, refund, close, escalate, expire, skip, decide}
use dispute_router.Worker.Rules.Policy.{
  Live, MayRefund, Overdue, decide-refund_iff, decide-close_iff, decide-expire_iff,
}
use dispute_router.Worker.Store.{Loaded, apply, load}
use dispute_router.Worker.Store.Effect.{Applied, apply-all_or_nothing}
use dispute_router.Worker.Locks.{Lock, acquire}
use dispute_router.Worker.Pool.{
  Options, World, Round, reschedule, reschedule_soon, after_apply, apply_decision, act, after_load,
  after_acquire, handle,
}

-- Why a decision may be written.
abbrev pub Justified : Action → Loaded → ℕ → Type 0
Justified refund l now = MayRefund l.candidate now
Justified close l now =
    Live l.candidate now × (l.kind ≡ alert) × (l.refundable_remaining_minor ≤ℤ pos 0)
Justified expire l now = Overdue l.candidate now
Justified _ l now = ⊥

-- The database is as it was, or holds all of one justified decision on the dispute as it stood.
abbrev pub Untouched : Options → Round → ℕ → Db → Db → Type 0
Untouched o r id db db' =
    (db' ≡ db)
    ⊎ ((l : Loaded) × (load id r.load_fate db ≡ ok l)
        × Justified (decide l.candidate r.decided_at).action l r.decided_at
        × Applied l (decide l.candidate r.decided_at) o.id r.applied_at db db')

module _ (o : Options) (r : Round) (id : ℕ) where
  after_apply-db : (x : Result (Unit {0})) (w : World) → (after_apply o r id w x).db ≡ w.db
  unfolding after_apply reschedule_soon reschedule
  after_apply-db x w = ground arith

  apply-Untouched :
      (l : Loaded) (w : World)
      → load id r.load_fate w.db ≡ ok l
      → Justified (decide l.candidate r.decided_at).action l r.decided_at
      → Untouched o r id w.db (apply_decision o r id l (decide l.candidate r.decided_at) w).db
  unfolding apply_decision
  apply-Untouched l w e j =
      elim (apply-all_or_nothing l (decide l.candidate r.decided_at) o.id r.apply_fates r.applied_at
        w.db) [
          | inl (x, f, same) ↦ inl (
              after_apply-db
                (apply l (decide l.candidate r.decided_at) o.id r.apply_fates r.applied_at w.db).0 _
              ∙ same)
          | inr (a, answer) ↦ inr (
            l,
            e,
            j,
            rw
                (after_apply-db
                  (apply l (decide l.candidate r.decided_at) o.id r.apply_fates r.applied_at w.db).0
                  (record w {
                    db =
                        (apply l (decide l.candidate r.decided_at) o.id r.apply_fates r.applied_at
                          w.db).1;
                  }))
                a,
          )
        ]

  act-Untouched :
      (a : Action) (l : Loaded) (w : World)
      → load id r.load_fate w.db ≡ ok l
      → (decide l.candidate r.decided_at).action ≡ a
      → Untouched o r id w.db (act a o r id l (decide l.candidate r.decided_at) w).db
  unfolding act reschedule
  act-Untouched skip l w e f = inl refl
  act-Untouched escalate l w e f = inl refl
  act-Untouched refund l w e f =
      apply-Untouched l w e (rw f ((decide-refund_iff l.candidate r.decided_at).0 f))
  act-Untouched close l w e f =
      apply-Untouched l w e (rw f ((decide-close_iff l.candidate r.decided_at).0 f))
  act-Untouched expire l w e f =
      apply-Untouched l w e (rw f ((decide-expire_iff l.candidate r.decided_at).0 f))

  after_load-Untouched :
      (x : Result Loaded) (w : World)
      → load id r.load_fate w.db ≡ x
      → Untouched o r id w.db (after_load o r id w x).db
  unfolding after_load reschedule_soon reschedule
  after_load-Untouched (ok l) w e =
      act-Untouched (decide l.candidate r.decided_at).action l w e refl
  after_load-Untouched (err x) w e = inl (ground arith)

  after_acquire-Untouched :
      (x : Result (Option Lock)) (w : World) → Untouched o r id w.db (after_acquire o r id w x).db
  unfolding after_acquire reschedule_soon reschedule
  after_acquire-Untouched (err e) w = inl refl
  after_acquire-Untouched (ok none) w = inl refl
  after_acquire-Untouched (ok (some lock)) w =
      after_load-Untouched (load id r.load_fate w.db) w refl

  -- A handler leaves the database as it was, or writes exactly one whole decision about the dispute
  -- that it loaded: a refund that the policy's conditions allow, the closing of a live alert with
  -- nothing left to refund, or the expiry of an open dispute past its deadline.
  pub handle-justified : (w : World) → Untouched o r id w.db (handle o r id w).db
  unfolding handle
  handle-justified w =
      after_acquire-Untouched (acquire o.lock_ttl r.token r.lock_fate id r.locked_at w.locks).0 _
