-- ===== src/Worker/Rules/Policy.antt =====
-- internal/worker/rules.go: what the policy guarantees about money and about the clock.
use dispute_router.Common.{◌≡◌, ◌<◌, ◌≤◌, ◌⊎◌, ◌↔◌, ◌≢◌, ℕ, true, false, Option, none, some, arith}
use dispute_router.Common.Int.{ℤ, pos, ◌≤ℤ◌, ◌<ℤ◌}
use dispute_router.Dispute.{
  State, received, resolving, represented, refunded, won, lost, expired, alert, chargeback,
}
use dispute_router.Worker.Rules.{
  Candidate, Action, refund, close, escalate, expire, skip, decide, still_open,
}

-- The worker's to decide: open, not a draft, and inside its window.
pub record Live (c : Candidate) (now : ℕ) : Type 0 where
  pub unresolved : c.resolved ≡ false
  pub waiting : (c.state ≡ received) ⊎ (c.state ≡ resolving)
  pub in_time : now < c.deadline_at

-- All that has to hold before the worker may give money back.
pub record MayRefund (c : Candidate) (now : ℕ) : Type 0 where
  pub live : Live c now
  pub is_alert : c.kind ≡ alert
  pub ceiling : (v : ℤ) × (c.auto_refund_ceiling_minor ≡ some v) × (c.amount_minor ≤ℤ v)
  pub covered : c.amount_minor ≤ℤ c.refundable_remaining_minor
  pub left : pos 0 <ℤ c.refundable_remaining_minor

-- An open dispute, a draft included, whose window closed with nobody acting.
pub record Overdue (c : Candidate) (now : ℕ) : Type 0 where
  pub unresolved : c.resolved ≡ false
  pub open_state : still_open c.state ≡ true
  pub late : c.deadline_at ≤ now

-- The state that a decision moves a dispute to.
abbrev pub target : Action → Option State
target refund = some refunded
target close = some refunded
target expire = some expired
target escalate = none
target skip = none

module _ (c : Candidate) (now : ℕ) where
  refund-ceiling :
      (o : Option ℤ)
      → c.auto_refund_ceiling_minor ≡ o
      → (decide c now).action ≡ refund
      → (v : ℤ) × (c.auto_refund_ceiling_minor ≡ some v) × (c.amount_minor ≤ℤ v)
  unfolding decide
  refund-ceiling none e h = absurd (ground arith)
  refund-ceiling (some v) e h = (v, e, ground arith)

  refund-MayRefund : (decide c now).action ≡ refund → MayRefund c now
  unfolding decide
  refund-MayRefund h = record {
    live = ground arith;
    is_alert = ground arith;
    ceiling = refund-ceiling c.auto_refund_ceiling_minor (λ i. c.auto_refund_ceiling_minor) h;
    covered = ground arith;
    left = ground arith;
  }

  MayRefund-refund : MayRefund c now → (decide c now).action ≡ refund
  unfolding decide
  MayRefund-refund h = ground (arith, h.ceiling.1, h.ceiling.2)

  -- The policy refunds exactly the alerts that are open, undrafted and before their deadline, within
  -- the merchant's own ceiling, and covered by what is left refundable on the charge.
  pub decide-refund_iff : ((decide c now).action ≡ refund) ↔ MayRefund c now
  decide-refund_iff = (refund-MayRefund, MayRefund-refund)

  -- The policy closes without a payment exactly the live alerts with nothing left to refund.
  pub decide-close_iff :
      ((decide c now).action ≡ close)
      ↔ (Live c now × (c.kind ≡ alert) × (c.refundable_remaining_minor ≤ℤ pos 0))
  unfolding decide
  decide-close_iff = ground arith

  -- The policy expires exactly the open disputes, drafts included, whose deadline has come.
  pub decide-expire_iff : ((decide c now).action ≡ expire) ↔ Overdue c now
  unfolding decide
  decide-expire_iff = ground arith

  -- A decision's target state is the one that goes with its action, so no decision represents a
  -- dispute or records a verdict.
  pub decide-target :
      ((decide c now).to_state ≡ target (decide c now).action)
      × ((decide c now).to_state ≢ some represented)
      × ((decide c now).to_state ≢ some won)
      × ((decide c now).to_state ≢ some lost)
  unfolding decide
  decide-target = ground arith

  -- A live chargeback escalates, whatever its reason code and amounts, and keeps its state.
  pub chargeback-escalates :
      Live c now
      → c.kind ≡ chargeback
      → ((decide c now).action ≡ escalate) × ((decide c now).to_state ≡ none)
  unfolding decide
  chargeback-escalates l k = ground arith
