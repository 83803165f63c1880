-- ===== src/Worker/Store/Rows.antt =====
-- internal/worker/store.go: how an applied decision moves the rows of the disputes table.
use dispute_router.Common.{
  ℕ, ◌≡◌, refl, String, Bool, true, not, List, Option, none, some, arith, find_where, ◌==◌,
}
use dispute_router.Database.Schema.{Db, DisputeRow}
use dispute_router.Database.Transaction.{ok, Fate, Session}
use dispute_router.Database.Atomic.{sent-eq-ok}
use dispute_router.Dispute.{State, represented, state_eq, Kind, alert, chargeback, other_kind}
use dispute_router.Events.{record_event}
use dispute_router.Ledger
use dispute_router.Ledger.Balance.{refunds, loses, post}
use dispute_router.System.Rows.{Guard, Grows, Grows-same, Grows-update}
use dispute_router.System.Writes.{
  Keeps, Keeps-pure, Keeps-bind, Keeps-statement, begin_func-Grows, record_event-Keeps,
  insert-Keeps, post-Keeps,
}
use dispute_router.Worker.Rules.{Decision, Action, refund, close, escalate, expire, skip}
use dispute_router.Worker.Store.{
  Loaded, is_version, update_dispute, update_row, refund_charge, add_refund_to_transaction,
  expire_kind, move_money, load, join_rows, loaded_row, ledger_entry, decision_event,
  decision_message, apply_to, apply_tx, apply,
}

-- A dispute at the loaded version, and the decision's target.
abbrev pub ApplyGuard : Loaded → Decision → Guard
ApplyGuard l d row to = (is_version l row ≡ true) × (d.to_state ≡ some to)

module _ (l : Loaded) (d : Decision) where
  update_row-Grows :
      (to : State) (r : Bool) (o : Option DisputeRow) (s s' : Session) (a : ℕ)
      → d.to_state ≡ some to
      → update_row l to r s o ≡ ok (a, s')
      → Grows (ApplyGuard l d) s.db s'.db
  unfolding update_row
  update_row-Grows to r none s s' a e h = absurd (ground (arith, h))
  update_row-Grows to r (some x) s s' a e h =
      Grows-update _ s.db s'.db (is_version l) to r s.now (λ y k. (k, e)) (ground (arith, h))
        (ground (arith, h))

  update_dispute-Keeps :
      (to : State) (r : Bool)
      → d.to_state ≡ some to
      → Keeps (ApplyGuard l d) (update_dispute l to r)
  unfolding update_dispute
  update_dispute-Keeps to r e =
      Keeps-statement _ _
        λ s s' a h. update_row-Grows to r (find_where (is_version l) s.db.disputes) s s' a e h

module _ (G : Guard) (l : Loaded) where
  refund_charge-Grows :
      (o : Option DisputeRow) (s s' : Session) (a : Unit {0})
      → refund_charge l.amount_minor s o ≡ ok (a, s')
      → Grows G s.db s'.db
  unfolding refund_charge
  refund_charge-Grows none s s' a h =
      Grows-same G s.db s'.db (ground (arith, h)) (ground (arith, h))
  refund_charge-Grows (some x) s s' a h =
      Grows-same G s.db s'.db (ground (arith, h)) (ground (arith, h))

  add_refund-Keeps : Keeps G (add_refund_to_transaction l)
  unfolding add_refund_to_transaction
  add_refund-Keeps =
      Keeps-statement G _ λ s. refund_charge-Grows (find_where (λ x. x.id == l.id) s.db.disputes) s

  expire_kind-Keeps : (k : Kind) (x : Ledger.Entry) → Keeps G (expire_kind k x)
  unfolding expire_kind post
  expire_kind-Keeps chargeback x =
      post-Keeps G (loses "response window closed with no representment") x
  expire_kind-Keeps alert x = Keeps-pure G tt
  expire_kind-Keeps (other_kind k) x = Keeps-pure G tt

  move_money-Keeps : (a : Action) (x : Ledger.Entry) → Keeps G (move_money a l x)
  unfolding move_money post
  move_money-Keeps refund x =
      Keeps-bind G (Ledger.refund x l.reason_code) _ (post-Keeps G (refunds l.reason_code) x)
        (λ _. add_refund-Keeps)
  move_money-Keeps close x = Keeps-pure G tt
  move_money-Keeps expire x = expire_kind-Keeps l.kind x
  move_money-Keeps escalate x = Keeps-pure G tt
  move_money-Keeps skip x = Keeps-pure G tt

module _ (l : Loaded) (d : Decision) (worker : String) where
  apply_to-Keeps :
      (o : Option State) → d.to_state ≡ o → Keeps (ApplyGuard l d) (apply_to o l d worker)
  unfolding apply_to
  apply_to-Keeps none e = λ s s' a h. absurd (ground (arith, h))
  apply_to-Keeps (some to) e =
      Keeps-bind _ (update_dispute l to (not (state_eq to represented))) _
        (update_dispute-Keeps l d to (not (state_eq to represented)) e)
        λ at.
          Keeps-bind _ (record_event (decision_event l d to worker)) _ (record_event-Keeps _ _) λ _.
            Keeps-bind _ (move_money d.action l (ledger_entry l at)) _
              (move_money-Keeps _ l d.action (ledger_entry l at))
              λ _. insert-Keeps _ (decision_message l d to)

  -- An applied decision moves the loaded version only, to its target.
  pub apply-Grows :
      (fates : List Fate) (now : ℕ) (db : Db)
      → Grows (ApplyGuard l d) db (apply l d worker fates now db).1
  unfolding apply apply_tx
  apply-Grows fates now db =
      begin_func-Grows _ (apply_tx l d worker) fates now db (apply_to-Keeps d.to_state refl)

join_rows-found :
    (db : Db) (o : Option DisputeRow) (l : Loaded)
    → join_rows db o ≡ ok l
    → (d : DisputeRow) × (o ≡ some d)
      × (l.id ≡ d.id)
      × (l.version ≡ d.version)
      × (l.state ≡ d.state)
unfolding join_rows loaded_row
join_rows-found db none l h = absurd (ground (arith, h))
join_rows-found db (some d) l h = (d, refl, ground (arith, h), ground (arith, h), ground (arith, h))

-- What is loaded is the row that has the id.
pub load-found :
    (id : ℕ) (f : Fate) (db : Db) (l : Loaded)
    → load id f db ≡ ok l
    → (d : DisputeRow) × (find_where (λ x. x.id == id) db.disputes ≡ some d)
      × (l.id ≡ d.id)
      × (l.version ≡ d.version)
      × (l.state ≡ d.state)
unfolding load
load-found id f db l h =
    join_rows-found db (find_where (λ x. x.id == id) db.disputes) l (sent-eq-ok f _ h)
