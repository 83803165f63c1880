-- ===== src/Worker/Store/Steps.antt =====
-- internal/worker/store.go: what each statement of `applyTx` changes, if it succeeds.
use dispute_router.Common.{
  ℕ, ◌≡◌, refl, ap₂, subst, subst₂, ◌∙◌, String, Bool, true, List, [], ◌∷◌, ◌++◌, Option, none,
  some, arith, map, filter_where, find_where, update_where, ◌==◌,
}
use dispute_router.Common.{if◌then◌else◌}
use dispute_router.Common.Int.{ℤ, ◌+ℤ◌, leb_ℤ}
use dispute_router.Database.Schema.{DisputeRow, ChargeRow, fully_refunded, partially_refunded}
use dispute_router.Database.Transaction.{Result, ok, Session, later_fates, next_fate}
use dispute_router.Database.Atomic.{bind-eq-ok, sent-eq-ok}
use dispute_router.Dispute.{State, Kind, alert, chargeback, other_kind}
use dispute_router.Events.{Event, event_row, record_event}
use dispute_router.Ledger
use dispute_router.Ledger.{has_ref}
use dispute_router.Ledger.Frame.{post-frame}
use dispute_router.Ledger.Balance.{refunds, loses, post}
use dispute_router.Outbox
use dispute_router.Outbox.{outbox_row}
use dispute_router.Worker.Rules.{Action, refund, close, escalate, expire, skip}
use dispute_router.Worker.Store.{
  Loaded, is_version, moved, update_row, update_dispute, add_refund, all_check, refund_charge,
  add_refund_to_transaction, ledger_entry, move_money, expire_kind,
}

-- The row with the loaded version is there, and moves.
pub record Moved (l : Loaded) (to : State) (resolved : Bool) (s s' : Session) : Type 0 where
  pub was_there : (d : DisputeRow) × (find_where (is_version l) s.db.disputes ≡ some d)
  pub disputes :
      s'.db.disputes ≡ update_where (is_version l) (moved to resolved s.now) s.db.disputes
  pub same_charges : s'.db.charges ≡ s.db.charges
  pub same_events : s'.db.events ≡ s.db.events
  pub same_outbox : s'.db.outbox ≡ s.db.outbox
  pub same_journals : s'.db.journals ≡ s.db.journals
  pub same_accounts : s'.db.accounts ≡ s.db.accounts
  pub same_legs : s'.db.legs ≡ s.db.legs
  pub same_now : s'.now ≡ s.now

module _ (l : Loaded) (to : State) (resolved : Bool) (s s' : Session) (at : ℕ) where
  update_row-Moved :
      (r : Session) (o : Option DisputeRow)
      → find_where (is_version l) s.db.disputes ≡ o
      → s.db ≡ r.db
      → s.now ≡ r.now
      → update_row l to resolved r o ≡ ok (at, s')
      → Moved l to resolved s s' × (at ≡ s.now)
  unfolding update_row
  update_row-Moved r none e f g h = absurd (ground arith)
  update_row-Moved r (some d) e f g h = (
    record {
      was_there = (d, e);
      disputes = ground arith;
      same_charges = ground arith;
      same_events = ground arith;
      same_outbox = ground arith;
      same_journals = ground arith;
      same_accounts = ground arith;
      same_legs = ground arith;
      same_now = ground arith;
    },
    ground arith,
  )

  pub update_dispute-Moved :
      update_dispute l to resolved s ≡ ok (at, s') → Moved l to resolved s s' × (at ≡ s.now)
  unfolding update_dispute
  update_dispute-Moved h =
      update_row-Moved (record s { fates = later_fates s.fates })
        (find_where (is_version l) s.db.disputes) refl refl refl
        (sent-eq-ok (next_fate s.fates) _ h)

-- What an action does to the money, on both sides of the ledger and on the charge.
pub charge_of : Loaded → List DisputeRow → Option DisputeRow
charge_of l = find_where (λ d. d.id == l.id)

-- A charge with so much more refunded, and whole or in part by that.
abbrev pub refunded_by : ℤ → ChargeRow → ChargeRow
refunded_by amount t = record t {
  refunded_minor = t.refunded_minor +ℤ amount;
  status =
      if leb_ℤ t.amount_minor (t.refunded_minor +ℤ amount)
      then fully_refunded
      else partially_refunded;
}

abbrev pub refund_charges : Loaded → Option DisputeRow → List ChargeRow → List ChargeRow
refund_charges l none cs = cs
refund_charges l (some d) cs =
    update_where (λ t. t.id == d.transaction_id) (refunded_by l.amount_minor) cs

-- The CHECKs held on each row that the refund was added to.
abbrev pub RefundFits : Loaded → Option DisputeRow → List ChargeRow → Type 0
RefundFits l none cs = Unit {0}
RefundFits l (some d) cs =
    all_check (map (add_refund l.amount_minor) (filter_where (λ t. t.id == d.transaction_id) cs))
    ≡ true

pub record OnlyCharges (l : Loaded) (s s' : Session) : Type 0 where
  pub charges : s'.db.charges ≡ refund_charges l (charge_of l s.db.disputes) s.db.charges
  pub fits : RefundFits l (charge_of l s.db.disputes) s.db.charges
  pub same_disputes : s'.db.disputes ≡ s.db.disputes
  pub same_events : s'.db.events ≡ s.db.events
  pub same_outbox : s'.db.outbox ≡ s.db.outbox
  pub same_journals : s'.db.journals ≡ s.db.journals
  pub same_legs : s'.db.legs ≡ s.db.legs
  pub same_now : s'.now ≡ s.now

module _ (l : Loaded) (s s' : Session) where
  refund_charge-OnlyCharges :
      (r : Session) (o : Option DisputeRow)
      → charge_of l s.db.disputes ≡ o
      → s.db ≡ r.db
      → s.now ≡ r.now
      → refund_charge l.amount_minor r o ≡ ok (tt, s')
      → OnlyCharges l s s'
  unfolding refund_charge
  refund_charge-OnlyCharges r none e f g h = record {
    charges = ground arith;
    fits = rw e tt;
    same_disputes = ground arith;
    same_events = ground arith;
    same_outbox = ground arith;
    same_journals = ground arith;
    same_legs = ground arith;
    same_now = ground arith;
  }
  refund_charge-OnlyCharges r (some d) e f g h = record {
    charges = ground arith;
    fits = rw e (ground arith);
    same_disputes = ground arith;
    same_events = ground arith;
    same_outbox = ground arith;
    same_journals = ground arith;
    same_legs = ground arith;
    same_now = ground arith;
  }

  add_refund-OnlyCharges : add_refund_to_transaction l s ≡ ok (tt, s') → OnlyCharges l s s'
  unfolding add_refund_to_transaction charge_of
  add_refund-OnlyCharges h =
      refund_charge-OnlyCharges (record s { fates = later_fates s.fates })
        (charge_of l s.db.disputes) refl refl refl (sent-eq-ok (next_fate s.fates) _ h)

-- What a decision's action does to the money: a refund is posted and added to the charge, a
-- chargeback that expires is posted as lost, and nothing else moves any.
abbrev pub loss_reason : String
loss_reason = "response window closed with no representment"

abbrev pub MoneyOf : Action → Kind → Loaded → Session → Session → Type 0
MoneyOf refund k l s s' =
    (u : Session) × (post (refunds l.reason_code) (ledger_entry l s.now) s ≡ ok (tt, u))
    × (s'.db.journals ≡ u.db.journals)
    × (s'.db.legs ≡ u.db.legs)
    × (s'.db.charges ≡ refund_charges l (charge_of l s.db.disputes) s.db.charges)
    × RefundFits l (charge_of l s.db.disputes) s.db.charges
MoneyOf expire chargeback l s s' =
    (post (loses loss_reason) (ledger_entry l s.now) s ≡ ok (tt, s'))
    × (s'.db.charges ≡ s.db.charges)
MoneyOf _ k l s s' =
    (s'.db.journals ≡ s.db.journals) × (s'.db.legs ≡ s.db.legs) × (s'.db.charges ≡ s.db.charges)

pub record Paid (a : Action) (k : Kind) (l : Loaded) (s s' : Session) : Type 0 where
  pub money : MoneyOf a k l s s'
  pub same_disputes : s'.db.disputes ≡ s.db.disputes
  pub same_events : s'.db.events ≡ s.db.events
  pub same_outbox : s'.db.outbox ≡ s.db.outbox
  pub same_now : s'.now ≡ s.now

module _ (l : Loaded) (s s' : Session) where
  unmoved :
      (a : Action) (k : Kind)
      → MoneyOf a k l s s
      → ◌≡◌ {A = Result (Unit {0} × Session)} (ok (tt, s)) (ok (tt, s'))
      → Paid a k l s s'
  unmoved a k m h =
      let same : s ≡ s' = cc in
      subst (Paid a k l s) same (record {
        money = m;
        same_disputes = refl;
        same_events = refl;
        same_outbox = refl;
        same_now = refl;
      })

  expire_kind-Paid :
      (k : Kind) → expire_kind k (ledger_entry l s.now) s ≡ ok (tt, s') → Paid expire k l s s'
  unfolding expire_kind post
  expire_kind-Paid alert h = unmoved expire alert (refl, refl, refl) h
  expire_kind-Paid (other_kind k) h = unmoved expire (other_kind k) (refl, refl, refl) h
  expire_kind-Paid chargeback h =
      let f = post-frame (loses loss_reason) (ledger_entry l s.now) s s' h in
      record {
        money = (h, f.same_charges);
        same_disputes = f.same_disputes;
        same_events = f.same_events;
        same_outbox = f.same_outbox;
        same_now = f.same_now;
      }

  refund-Paid :
      (k : Kind) → move_money refund l (ledger_entry l s.now) s ≡ ok (tt, s') → Paid refund k l s s'
  unfolding move_money post
  refund-Paid k h =
      let entry = ledger_entry l s.now in
      let (x, u, first, rest) =
        bind-eq-ok (Ledger.refund entry l.reason_code) (λ _. add_refund_to_transaction l) s h in
      let f = post-frame (refunds l.reason_code) entry s u first in
      let c = add_refund-OnlyCharges l u s' rest in
      record {
        money = (
          u,
          first,
          c.same_journals,
          c.same_legs,
          c.charges
              ∙ ap₂ (λ ds cs. refund_charges l (charge_of l ds) cs) f.same_disputes f.same_charges,
          subst₂ (λ ds cs. RefundFits l (charge_of l ds) cs) f.same_disputes f.same_charges c.fits,
        );
        same_disputes = c.same_disputes ∙ f.same_disputes;
        same_events = c.same_events ∙ f.same_events;
        same_outbox = c.same_outbox ∙ f.same_outbox;
        same_now = c.same_now ∙ f.same_now;
      }

  pub move_money-Paid :
      (a : Action) → move_money a l (ledger_entry l s.now) s ≡ ok (tt, s') → Paid a l.kind l s s'
  unfolding move_money
  move_money-Paid refund h = refund-Paid l.kind h
  move_money-Paid close h = unmoved close l.kind (refl, refl, refl) h
  move_money-Paid escalate h = unmoved escalate l.kind (refl, refl, refl) h
  move_money-Paid skip h = unmoved skip l.kind (refl, refl, refl) h
  move_money-Paid expire h = expire_kind-Paid l.kind h

-- A statement that leaves the ledger, the charges and the disputes alone.
pub record Quiet (s s' : Session) : Type 0 where
  pub same_disputes : s'.db.disputes ≡ s.db.disputes
  pub same_charges : s'.db.charges ≡ s.db.charges
  pub same_journals : s'.db.journals ≡ s.db.journals
  pub same_accounts : s'.db.accounts ≡ s.db.accounts
  pub same_legs : s'.db.legs ≡ s.db.legs
  pub same_now : s'.now ≡ s.now

pub record_event-effect :
    (e : Event) (s s' : Session)
    → record_event e s ≡ ok (tt, s')
    → Quiet s s' × (s'.db.events ≡ event_row s.now e ∷ s.db.events) × (s'.db.outbox ≡ s.db.outbox)
unfolding record_event
record_event-effect e s s' h = ground arith

pub insert-effect :
    (e : Outbox.Entry) (s s' : Session)
    → Outbox.insert e s ≡ ok (tt, s')
    → Quiet s s'
      × (s'.db.events ≡ s.db.events)
      × (s'.db.outbox ≡ s.db.outbox ++ (outbox_row s.db.next_id e ∷ []))
unfolding Outbox.insert
insert-effect e s s' h = ground arith
