-- ===== src/Worker/Store/Effect.antt =====
-- internal/worker/store.go: what a decision that is applied does to the database, all of it at once.
use dispute_router.Common.{
  ℕ, ◌≡◌, refl, sym, ap, ap₂, subst, subst₂, ◌∙◌, ◌⊎◌, inl, inr, String, true, false, not, List, [],
  ◌∷◌, ◌++◌, Option, none, some, arith, find_where, update_where,
}
use dispute_router.Common.Bytes.{Bytes, codes}
use dispute_router.Ledger.Reference.{post-refs}
use dispute_router.Database.Schema.{
  Db, DisputeRow, AccountKind, Direction, debit, credit, merchant_balance, settlement_clearing,
  disputes_payable, fee_revenue,
}
use dispute_router.Database.Transaction.{
  Error, ok, err, Session, Fate, later_fates, session, driver_error,
}
use dispute_router.Database.Atomic.{bind-eq-ok, begin_func-Ends}
use dispute_router.Dispute.{State, state_eq, represented, Kind, alert, chargeback, other_kind}
use dispute_router.Events.{event_row, record_event}
use dispute_router.Ledger
use dispute_router.Ledger.{has_ref, Journal, Posting, journal_row}
use dispute_router.Ledger.Legs.{legs_for, Adds, write-Adds}
use dispute_router.Common.Int.{ℤ, pos}
use dispute_router.Ledger.Balance.{Op, refunds, loses, post, journal_of, post-eq-write}
use dispute_router.Outbox.{outbox_row}
use dispute_router.Worker.Rules.{Decision, Action, refund, close, escalate, expire, skip}
use dispute_router.Worker.Store.{
  Loaded, is_version, moved, update_dispute, apply_to, decision_event, decision_message,
  ledger_entry, move_money, apply_tx, apply,
}
use dispute_router.Worker.Store.Steps.{
  update_dispute-Moved, charge_of, refund_charges, RefundFits, loss_reason, MoneyOf,
  move_money-Paid, record_event-effect, insert-effect,
}

-- The reference of the entry that a refund, or a loss, of this dispute is posted under.
abbrev pub refund_ref : Loaded → Bytes
refund_ref l = Ledger.external_ref_of l.id (codes "refund")

abbrev pub loss_ref : Loaded → Bytes
loss_ref l = Ledger.external_ref_of l.id (codes "chargeback")

-- An amount on an account of the merchant's, or of the platform's.
abbrev pub of_merchant : AccountKind → Direction → ℤ → Posting
of_merchant kind direction amount = record {
  account = kind;
  merchant_scoped = true;
  direction = direction;
  amount_minor = amount;
}

abbrev pub of_platform : AccountKind → Direction → ℤ → Posting
of_platform kind direction amount = record {
  account = kind;
  merchant_scoped = false;
  direction = direction;
  amount_minor = amount;
}

-- An entry with this reference, of these postings, is new and is on file.
abbrev pub Books : Loaded → ℕ → Bytes → List Posting → Db → Db → Type 0
Books l now ref postings db db' =
    (has_ref ref db.journals ≡ false)
    × ((j : Journal) × (j.external_ref ≡ ref)
        × (j.postings ≡ postings)
        × Adds (ledger_entry l now) j db db')

-- The money of a decision, from the database before to the one after.
abbrev pub MovesMoney : Action → Kind → Loaded → ℕ → Db → Db → Type 0
MovesMoney refund k l now db db' =
    Books l now (refund_ref l)
      (of_merchant merchant_balance debit l.amount_minor
        ∷ of_platform settlement_clearing credit l.amount_minor
        ∷ [])
      db db'
    × (db'.charges ≡ refund_charges l (charge_of l db'.disputes) db.charges)
    × RefundFits l (charge_of l db'.disputes) db.charges
MovesMoney expire chargeback l now db db' =
    Books l now (loss_ref l)
      (of_merchant disputes_payable debit l.amount_minor
        ∷ of_platform settlement_clearing credit l.amount_minor
        ∷ of_merchant merchant_balance debit (pos 1500)
        ∷ of_platform fee_revenue credit (pos 1500)
        ∷ [])
      db db'
    × (db'.charges ≡ db.charges)
MovesMoney _ k l now db db' =
    (db'.journals ≡ db.journals) × (db'.legs ≡ db.legs) × (db'.charges ≡ db.charges)

-- A decision that took effect: the state change, its audit event, its money and its message.
pub record Applied (l : Loaded) (d : Decision) (worker : String) (now : ℕ) (db db' : Db)
    : Type 0 where
  pub to : State
  pub target : d.to_state ≡ some to
  pub was_there : (row : DisputeRow) × (find_where (is_version l) db.disputes ≡ some row)
  pub disputes :
      db'.disputes
      ≡ update_where (is_version l) (moved to (not (state_eq to represented)) now) db.disputes
  pub events : db'.events ≡ event_row now (decision_event l d to worker) ∷ db.events
  pub outbox : (id : ℕ) × (db'.outbox ≡ db.outbox ++ (outbox_row id (decision_message l d to) ∷ []))
  pub money : MovesMoney d.action l.kind l now db db'

Adds-framed :
    (e : Ledger.Entry) (j : Journal) (a b c d : Db)
    → a.journals ≡ b.journals
    → a.legs ≡ b.legs
    → a.accounts ≡ b.accounts
    → d.journals ≡ c.journals
    → d.legs ≡ c.legs
    → Adds e j a c
    → Adds e j b d
unfolding Adds
Adds-framed e j a b c d p q r p' q' (id, row, legs) = (
  id,
  p' ∙ row ∙ ap (λ js. journal_row id e j ∷ js) p,
  q' ∙ legs ∙ (λ i. legs_for id e (r i) j.postings (q i)),
)

module _ (l : Loaded) (u v : Session) (db db' : Db) (j : u.db.journals ≡ db.journals)
    (g : u.db.legs ≡ db.legs) (x : u.db.accounts ≡ db.accounts) (c : u.db.charges ≡ db.charges)
    (j' : db'.journals ≡ v.db.journals) (g' : db'.legs ≡ v.db.legs)
    (c' : db'.charges ≡ v.db.charges) (ds : db'.disputes ≡ u.db.disputes) where
  post-Books :
      (op : Op) (w : Session) (ref : Bytes) (ps : List Posting)
      → (journal_of op (ledger_entry l u.now)).external_ref ≡ ref
      → (journal_of op (ledger_entry l u.now)).postings ≡ ps
      → db'.journals ≡ w.db.journals
      → db'.legs ≡ w.db.legs
      → post op (ledger_entry l u.now) u ≡ ok (tt, w)
      → Books l u.now ref ps db db'
  post-Books op w ref ps same_ref same_postings wj wl posted =
      let e = ledger_entry l u.now in
      (
        subst₂ (λ r js. has_ref r js ≡ false) same_ref j (post-refs op e u w posted).0,
        (
          journal_of op e,
          same_ref,
          same_postings,
          Adds-framed e (journal_of op e) u.db db w.db db' j g x wj wl
              (write-Adds e (journal_of op e) u w (rw (post-eq-write op e) at posted)),
        ),
      )

  MoneyOf-MovesMoney : (a : Action) (k : Kind) → MoneyOf a k l u v → MovesMoney a k l u.now db db'
  unfolding journal_of ledger_entry Ledger.loss_journal Ledger.refund_journal
  MoneyOf-MovesMoney refund k (w, posted, wj, wl, wc, fits) = (
    post-Books (refunds l.reason_code) w (refund_ref l) _ refl refl (j' ∙ wj) (g' ∙ wl) posted,
    c' ∙ wc ∙ ap₂ (λ xs cs. refund_charges l (charge_of l xs) cs) (sym ds) c,
    subst₂ (λ xs cs. RefundFits l (charge_of l xs) cs) (sym ds) c fits,
  )
  MoneyOf-MovesMoney expire chargeback (posted, same) =
      (post-Books (loses loss_reason) v (loss_ref l) _ refl refl j' g' posted, c' ∙ same ∙ c)
  MoneyOf-MovesMoney expire alert (mj, ml, mc) = (j' ∙ mj ∙ j, g' ∙ ml ∙ g, c' ∙ mc ∙ c)
  MoneyOf-MovesMoney expire (other_kind t) (mj, ml, mc) = (j' ∙ mj ∙ j, g' ∙ ml ∙ g, c' ∙ mc ∙ c)
  MoneyOf-MovesMoney close k (mj, ml, mc) = (j' ∙ mj ∙ j, g' ∙ ml ∙ g, c' ∙ mc ∙ c)
  MoneyOf-MovesMoney escalate k (mj, ml, mc) = (j' ∙ mj ∙ j, g' ∙ ml ∙ g, c' ∙ mc ∙ c)
  MoneyOf-MovesMoney skip k (mj, ml, mc) = (j' ∙ mj ∙ j, g' ∙ ml ∙ g, c' ∙ mc ∙ c)

module _ (l : Loaded) (d : Decision) (worker : String) where
  apply_to-Applied :
      (s s' : Session) (o : Option State)
      → d.to_state ≡ o
      → apply_to o l d worker s ≡ ok (tt, s')
      → Applied l d worker s.now s.db s'.db
  unfolding apply_to
  apply_to-Applied s s' none e h = absurd (ground arith)
  apply_to-Applied s s' (some to) e h =
      let (at, t, h₁, k₁) =
        bind-eq-ok (update_dispute l to (not (state_eq to represented))) _ s h in
      let (x, u, h₂, k₂) = bind-eq-ok (record_event (decision_event l d to worker)) _ t k₁ in
      let (y, v, h₃, h₄) = bind-eq-ok (move_money d.action l (ledger_entry l at)) _ u k₂ in
      let (m, now₁) = update_dispute-Moved l to (not (state_eq to represented)) s t at h₁ in
      let (q, logged, kept) = record_event-effect (decision_event l d to worker) t u h₂ in
      let (z, kept₂, queued) = insert-effect (decision_message l d to) v s' h₄ in
      let at_now : at ≡ u.now = now₁ ∙ sym (q.same_now ∙ m.same_now) in
      let p =
        move_money-Paid l u v d.action
          (subst (λ n. move_money d.action l (ledger_entry l n) u ≡ ok (tt, v)) at_now h₃) in
      record {
        to = to;
        target = e;
        was_there = m.was_there;
        disputes = z.same_disputes ∙ p.same_disputes ∙ q.same_disputes ∙ m.disputes;
        events =
            kept₂
            ∙ p.same_events
            ∙ logged
            ∙ ap₂ (λ n es. event_row n (decision_event l d to worker) ∷ es) m.same_now
                m.same_events;
        outbox = (
          v.db.next_id,
          queued
              ∙ ap (λ os. os ++ (outbox_row v.db.next_id (decision_message l d to) ∷ []))
                  (p.same_outbox ∙ kept ∙ m.same_outbox),
        );
        money =
            subst (λ n. MovesMoney d.action l.kind l n s.db s'.db) (q.same_now ∙ m.same_now)
              (MoneyOf-MovesMoney l u v s.db s'.db (q.same_journals ∙ m.same_journals)
                (q.same_legs ∙ m.same_legs) (q.same_accounts ∙ m.same_accounts)
                (q.same_charges ∙ m.same_charges) z.same_journals z.same_legs z.same_charges
                (z.same_disputes ∙ p.same_disputes) d.action l.kind p.money);
      }

  -- A decision is applied as a whole or not at all, whatever becomes of each round trip: either the
  -- call reports an error and nothing changed, or the dispute moved, its audit event and its message are there, and so is its money,
  -- and the call reports success unless the commit's answer was lost. The money of a refund is a new entry that debits the
  -- merchant and credits clearing by the disputed amount, on each account of that kind, owner and currency that there is, and
  -- the charge's refund. That of a chargeback that expires is a new entry that debits what was held and credits clearing,
  -- and debits the merchant and credits the revenue with the fee of 1500. Any other decision leaves the ledger and the
  -- charges alone.
  pub apply-all_or_nothing :
      (fates : List Fate) (now : ℕ) (db : Db)
      → let (r, db') = apply l d worker fates now db in
        ((x : Error) × (r ≡ err x) × (db' ≡ db))
        ⊎ (Applied l d worker now db db' × ((r ≡ ok tt) ⊎ (r ≡ err driver_error)))
  unfolding apply apply_tx
  apply-all_or_nothing fates now db = elim (begin_func-Ends (apply_tx l d worker) now db fates) [
    | inl e ↦ inl e
    | inr (tt, s, body, after, answer, balanced) ↦ inr (
      rw after (apply_to-Applied (session db now (later_fates fates)) s d.to_state refl body),
      answer,
    )
  ]
