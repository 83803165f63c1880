-- ===== src/Agent/Assist/Ends.antt =====
-- internal/agent/assist.go: where an attempt leaves the dispute.
use dispute_router.Common.{ℕ, suc, ap, ◌≡◌, refl, sym, ◌⊎◌, false, arith}
use dispute_router.Agent.Runs.{Claim, Run, next_state, hold}
use dispute_router.Agent.Runs.Again.{hold-release}
use dispute_router.Agent.Assist.{
  Limits, Answers, last_attempt, after_verdict, after_citations, after_draft, after_facts, attempt,
  Trip, after_attempt, after_hold, assist,
}
use dispute_router.Database.Schema.{Db, rejected, budget_exceeded}
use dispute_router.Database.Transaction.{Error, Result, ok, err, works}
use dispute_router.Dispute.{received, draft_ready}

-- On the last attempt, a run ends with the draft before a reviewer, whatever it came to; before that, it
-- goes back to be tried again unless it was drafted or found short of evidence.
pub attempt-next_state :
    (l : Limits) (c : Claim) (a : Answers) (r : Run)
    → attempt l c a ≡ ok r
    → ((next_state r.outcome r.escalated).0 ≡ draft_ready)
      ⊎ (((next_state r.outcome r.escalated).0 ≡ received)
          × (last_attempt l c ≡ false)
          × ((r.outcome ≡ rejected) ⊎ (r.outcome ≡ budget_exceeded)))
unfolding attempt after_facts after_draft after_citations after_verdict next_state
attempt-next_state l c a r h = ground (arith, h)

-- An attempt that fails, on whatever it had spent by then, leaves nothing behind once it is given back: the
-- next claim of the dispute is the same one two versions on, with the same attempt number and the same
-- spend.
pub assist-again :
    (l : Limits) (dispute_id : ℕ) (a : Answers) (t : Trip) (db : Db) (c : Claim) (e : Error)
    → (hold dispute_id t.hold_fate db).0 ≡ ok c
    → attempt l c a ≡ err e
    → t.release_fate ≡ works
    → ((assist l dispute_id a t db).0 ≡ err e)
      × ((hold dispute_id works (assist l dispute_id a t db).1).0
          ≡ ok (record c { version = suc (suc c.version) }))
unfolding assist after_hold after_attempt
assist-again l i a t db c e h x w = by_claim (hold i t.hold_fate db) refl h
  where
    by_claim :
        (o : Result Claim × Db)
        → hold i t.hold_fate db ≡ o
        → o.0 ≡ ok c
        → ((after_hold l a t o).0 ≡ err e)
          × ((hold i works (after_hold l a t o).1).0
              ≡ ok (record c { version = suc (suc c.version) }))
    by_claim (err y, db') k g = absurd (ground (arith, g))
    by_claim (ok b, db') k g =
        let same : b ≡ c = ground (arith, g) in
        let after : db' ≡ (hold i t.hold_fate db).1 = sym (ap (λ r. r.1) k) in
        rw same (rw x (rw w (rw after (refl, hold-release i t.hold_fate db c h))))
