-- ===== src/Worker/Pool/Counts.antt =====
-- internal/worker/worker.go: the counters account for every claimed dispute.
use dispute_router.Common.{
  ℕ, zero, suc, ◌+◌, ◌≡◌, List, [], ◌∷◌, Option, none, some, arith, length, Bool-cases, ltb, inl,
  inr,
}
use dispute_router.Database.Transaction.{Result, ok, err}
use dispute_router.Worker.Rules.{Action, refund, close, escalate, expire, skip, Decision, decide}
use dispute_router.Worker.Store.{Loaded, apply, load}
use dispute_router.Worker.Locks.{Lock, acquire}
use dispute_router.Worker.Deadlines.{ZSet, claim}
use dispute_router.Worker.Pool.{
  Options, Counters, World, Round, Pass, after_apply, act, after_load, after_acquire, handle,
  handle_all, drain, drain_once, after_pass, tick_from, tick, add_claimed, max_batches_per_tick,
  add_claimed, max_batches_per_tick,
}

-- The disputes whose handling has ended, one way or another.
abbrev pub settled : Counters → ℕ
settled c = c.decided + c.skipped + c.stale + c.failed + c.contended

-- One more dispute has been handled.
abbrev OneMore : World → World → Type 0
OneMore w w' =
    (settled w'.counters ≡ suc (settled w.counters)) × (w'.counters.claimed ≡ w.counters.claimed)

module _ (o : Options) (r : Round) (id : ℕ) where
  after_apply-OneMore : (x : Result (Unit {0})) (w : World) → OneMore w (after_apply o r id w x)
  unfolding after_apply
  after_apply-OneMore x w = ground arith

  act-OneMore :
      (a : Action) (l : Loaded) (d : Decision) (w : World) → OneMore w (act a o r id l d w)
  unfolding act
  act-OneMore skip l d w = ground arith
  act-OneMore escalate l d w = ground arith
  act-OneMore refund l d w =
      after_apply-OneMore (apply l d o.id r.apply_fates r.applied_at w.db).0 _
  act-OneMore close l d w = after_apply-OneMore (apply l d o.id r.apply_fates r.applied_at w.db).0 _
  act-OneMore expire l d w =
      after_apply-OneMore (apply l d o.id r.apply_fates r.applied_at w.db).0 _

  after_load-OneMore : (x : Result Loaded) (w : World) → OneMore w (after_load o r id w x)
  unfolding after_load
  after_load-OneMore (ok l) w =
      act-OneMore (decide l.candidate r.decided_at).action l (decide l.candidate r.decided_at) w
  after_load-OneMore (err e) w = ground arith

  after_acquire-OneMore :
      (x : Result (Option Lock)) (w : World) → OneMore w (after_acquire o r id w x)
  unfolding after_acquire
  after_acquire-OneMore (err e) w = ground arith
  after_acquire-OneMore (ok none) w = ground arith
  after_acquire-OneMore (ok (some lock)) w = after_load-OneMore (load id r.load_fate w.db) w

  handle-OneMore : (w : World) → OneMore w (handle o r id w)
  unfolding handle
  handle-OneMore w =
      after_acquire-OneMore (acquire o.lock_ttl r.token r.lock_fate id r.locked_at w.locks).0 _

handle_all-counts :
    (o : Options) (rounds : ℕ → Round) (ids : List ℕ) (w : World)
    → (settled (handle_all o rounds ids w).counters ≡ settled w.counters + length ids)
      × ((handle_all o rounds ids w).counters.claimed ≡ w.counters.claimed)
unfolding handle_all
handle_all-counts o rounds [] w = omega arith
handle_all-counts o rounds (id ∷ ids) w = omega (
  arith,
  handle-OneMore o (rounds id) id w,
  handle_all-counts o rounds ids (handle o (rounds id) id w),
)

-- Every claimed dispute is accounted for.
abbrev pub Accounted : World → Type 0
Accounted w = w.counters.claimed ≡ settled w.counters

module _ (o : Options) where
  pass-Accounted :
      (rounds : ℕ → Round) (more : World → World) (w : World) (claimed : Result (List ℕ) × ZSet)
      → ((v : World) → Accounted v → Accounted (more v))
      → Accounted w
      → Accounted (after_pass o more (drain o rounds w claimed))
  unfolding after_pass drain
  pass-Accounted rounds more w (err e, z) next h = h
  pass-Accounted rounds more w (ok ids, z) next h =
      let v = handle_all o rounds ids (record w { index = z }) in
      let v' = add_claimed (length ids) v in
      let fine : Accounted v' =
        omega (arith, handle_all-counts o rounds ids (record w { index = z })) in
      elim (Bool-cases (ltb (length ids) o.batch_size)) [
        | inl stop ↦ rw stop fine
        | inr full ↦ rw full (next v' fine)
      ]

  tick_from-Accounted :
      (left : ℕ) (passes : ℕ → Pass) (w : World)
      → Accounted w
      → Accounted (tick_from left o passes w)
  unfolding tick_from drain_once
  tick_from-Accounted zero passes w h = h
  tick_from-Accounted (suc left) passes w h =
      let p = passes left in
      pass-Accounted p.rounds (tick_from left o passes) w
        (claim (p.now + o.lookahead) o.batch_size p.claim_fate w.index)
        (tick_from-Accounted left passes) h

  -- However a tick goes, each dispute that it claims is counted exactly once more: as decided,
  -- skipped, stale, failed or contended.
  pub tick-Accounted : (passes : ℕ → Pass) (w : World) → Accounted w → Accounted (tick o passes w)
  unfolding tick
  tick-Accounted passes w h = tick_from-Accounted max_batches_per_tick passes w h
