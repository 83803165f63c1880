-- ===== src/Worker/Pool.antt =====
-- internal/worker/worker.go: the pool that claims due disputes and decides them.
-- The handlers of one batch are run one after the other: they share the database, the index and the
-- locks, each of which takes one atomic step at a time. Logging and Sentry are left out.
pub mod Counts
pub mod Handle
pub mod Visit
use dispute_router.Common.{
  ℕ, zero, suc, ◌+◌, ◌*◌, String, Bool, true, false, List, [], ◌∷◌, Option, none, some, length, ltb,
  if◌then◌else◌,
}
use dispute_router.Common.Bytes.{Bytes}
use dispute_router.Database.Schema.{Db}
use dispute_router.Database.Transaction.{
  Error, stale_candidate, not_found, Result, ok, err, Fate, sent,
}
use dispute_router.Worker.Rules.{Action, refund, close, escalate, expire, skip, Decision, decide}
use dispute_router.Worker.Store.{Loaded, load, open_deadlines, apply}
use dispute_router.Worker.Deadlines.{ZSet, nanos_per_second, schedule, schedule_many, claim}
use dispute_router.Worker.Locks.{LockKey, Lock, acquire, release}

-- The fields of `Options` that the decisions depend on.
pub record Options : Type 0 where
  pub batch_size : ℕ
  pub lookahead : ℕ
  pub lock_ttl : ℕ
  pub id : String

-- The counters of `Pool`.
pub record Counters : Type 0 where
  pub claimed : ℕ
  pub decided : ℕ
  pub skipped : ℕ
  pub stale : ℕ
  pub failed : ℕ
  pub contended : ℕ

-- What a handler reads and writes.
pub record World : Type 0 where
  pub db : Db
  pub index : ZSet
  pub locks : List LockKey
  pub counters : Counters

-- What the outside does to one handler: its random token, the fates of its calls, its clocks.
pub record Round : Type 0 where
  pub token : Option Bytes
  pub lock_fate : Fate
  pub locked_at : ℕ
  pub load_fate : Fate
  pub decided_at : ℕ
  pub apply_fates : List Fate
  pub applied_at : ℕ
  pub schedule_fate : Fate
  pub scheduled_at : ℕ
  pub release_fate : Fate
  pub released_at : ℕ

abbrev pub retry_backoff : ℕ
retry_backoff = 30 * nanos_per_second

abbrev pub max_batches_per_tick : ℕ
max_batches_per_tick = 20

-- `nextVisit` at the clock's `now`.
unfoldable pub next_visit : ℕ → ℕ → ℕ → ℕ
next_visit lookahead now preferred =
    let earliest = now + (lookahead + retry_backoff) in
    if ltb earliest preferred then preferred else earliest

reschedule : Options → Round → ℕ → ℕ → World → World
unfolding next_visit
reschedule o r id preferred w = record w {
  index = (schedule id (next_visit o.lookahead r.scheduled_at preferred) r.schedule_fate w.index).1;
}

-- `rescheduleSoon`; the zero time is 0.
reschedule_soon : Options → Round → ℕ → World → World
unfolding reschedule
reschedule_soon o r id w = reschedule o r id 0 w

abbrev count_decided : World → World
count_decided w = record w { counters = record w.counters { decided = suc w.counters.decided } }

abbrev count_skipped : World → World
count_skipped w = record w { counters = record w.counters { skipped = suc w.counters.skipped } }

abbrev count_stale : World → World
count_stale w = record w { counters = record w.counters { stale = suc w.counters.stale } }

abbrev count_failed : World → World
count_failed w = record w { counters = record w.counters { failed = suc w.counters.failed } }

abbrev count_contended : World → World
count_contended w = record w {
  counters = record w.counters { contended = suc w.counters.contended };
}

-- What follows `Store.apply`.
after_apply : Options → Round → ℕ → World → Result (Unit {0}) → World
unfolding reschedule_soon
after_apply o r id w (ok x) = count_decided w
after_apply o r id w (err stale_candidate) = count_stale w
after_apply o r id w (err e) = reschedule_soon o r id (count_failed w)

apply_decision : Options → Round → ℕ → Loaded → Decision → World → World
unfolding after_apply
apply_decision o r id l d w =
    let (result, db') = apply l d o.id r.apply_fates r.applied_at w.db in
    after_apply o r id (record w { db = db' }) result

-- `switch decision.Action`, and what follows it.
act : Action → Options → Round → ℕ → Loaded → Decision → World → World
unfolding apply_decision reschedule
act skip o r id l d w = count_skipped w
act escalate o r id l d w = reschedule o r id l.deadline_at (count_skipped w)
act refund o r id l d w = apply_decision o r id l d w
act close o r id l d w = apply_decision o r id l d w
act expire o r id l d w = apply_decision o r id l d w

-- What follows `Store.load`.
after_load : Options → Round → ℕ → World → Result Loaded → World
unfolding act reschedule_soon
after_load o r id w (ok l) = let d = decide l.candidate r.decided_at in act d.action o r id l d w
after_load o r id w (err not_found) = count_skipped w
after_load o r id w (err e) = reschedule_soon o r id (count_failed w)

-- The deferred release, which runs last.
let_go : Round → Lock → World → World
let_go r lock w = record w { locks = (release lock r.release_fate r.released_at w.locks).1 }

-- What follows `Locks.Acquire`.
after_acquire : Options → Round → ℕ → World → Result (Option Lock) → World
unfolding after_load let_go reschedule_soon
after_acquire o r id w (err e) = reschedule_soon o r id (count_failed w)
after_acquire o r id w (ok none) = reschedule_soon o r id (count_contended w)
after_acquire o r id w (ok (some lock)) =
    let_go r lock (after_load o r id w (load id r.load_fate w.db))

-- `Pool.handle`.
unfoldable pub handle : Options → Round → ℕ → World → World
unfolding after_acquire
handle o r id w =
    let (result, locks') = acquire o.lock_ttl r.token r.lock_fate id r.locked_at w.locks in
    after_acquire o r id (record w { locks = locks' }) result

-- The handlers of a batch; `rounds` gives each id its circumstances.
unfoldable pub handle_all : Options → (ℕ → Round) → List ℕ → World → World
handle_all o rounds [] w = w
handle_all o rounds (id ∷ ids) w = handle_all o rounds ids (handle o (rounds id) id w)

drain : Options → (ℕ → Round) → World → Result (List ℕ) × ZSet → Result ℕ × World
drain o rounds w (err e, index') = (err e, record w { index = index' })
drain o rounds w (ok ids, index') =
    (ok (length ids), handle_all o rounds ids (record w { index = index' }))

-- `Pool.drainOnce` at the clock's `now`.
unfoldable pub drain_once : Options → Fate → (ℕ → Round) → ℕ → World → Result ℕ × World
unfolding drain
drain_once o fate rounds now w =
    drain o rounds w (claim (now + o.lookahead) o.batch_size fate w.index)

-- What the outside does to one pass: the fate of the claim, the handlers' rounds, the clock.
pub record Pass : Type 0 where
  pub claim_fate : Fate
  pub rounds : ℕ → Round
  pub now : ℕ

add_claimed : ℕ → World → World
add_claimed n w = record w { counters = record w.counters { claimed = w.counters.claimed + n } }

-- What follows a pass; `more` is the next round of the loop.
after_pass : Options → (World → World) → Result ℕ × World → World
unfolding add_claimed
after_pass o more (err e, w) = w
after_pass o more (ok n, w) =
    let w' = add_claimed n w in let w'' = more w' in if ltb n o.batch_size then w' else w''

-- `case <-ticker.C`: at most `left` passes, each with its circumstances, while batches come full.
tick_from : ℕ → Options → (ℕ → Pass) → World → World
unfolding after_pass
tick_from zero o passes w = w
tick_from (suc left) o passes w =
    let p = passes left in
    after_pass o (tick_from left o passes) (drain_once o p.claim_fate p.rounds p.now w)

unfoldable pub tick : Options → (ℕ → Pass) → World → World
unfolding tick_from
tick = tick_from max_batches_per_tick

reconciled : Fate → World → Result (Unit {0}) × ZSet → Result (Unit {0}) × World
reconciled pending_fate w (err e, index') = (err e, record w { index = index' })
reconciled pending_fate w (ok x, index') = (sent pending_fate (ok tt), record w { index = index' })

reconcile_entries : Fate → Fate → World → Result (List (ℕ × ℕ)) → Result (Unit {0}) × World
unfolding reconciled
reconcile_entries write_fate pending_fate w (err e) = (err e, w)
reconcile_entries write_fate pending_fate w (ok entries) =
    reconciled pending_fate w (schedule_many entries write_fate w.index)

-- `Pool.reconcile`. What `Pending` counts is only logged, but its failure is reported.
unfoldable pub reconcile : Fate → Fate → Fate → World → Result (Unit {0}) × World
unfolding reconcile_entries
reconcile read_fate write_fate pending_fate w =
    reconcile_entries write_fate pending_fate w (open_deadlines read_fate w.db)
