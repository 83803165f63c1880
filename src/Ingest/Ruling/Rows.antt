-- ===== src/Ingest/Ruling/Rows.antt =====
-- internal/ingest/store.go: how the rulings move the rows of the disputes table.
use dispute_router.Common.{
  ℕ, ◌≡◌, refl, String, Bool, true, false, List, Option, none, some, arith, find_where,
}
use dispute_router.Common.Bytes.{Bytes}
use dispute_router.Database.Schema.{Db, DisputeRow}
use dispute_router.Database.Transaction.{ok, Fate, Session}
use dispute_router.Dispute.{represented, lost, state_eq, state_of}
use dispute_router.Events.{record_event}
use dispute_router.Ingest.Event.{RulingWebhook}
use dispute_router.Ingest.Ruling.{
  awaits_ruling, apply_ruling, rule_row, ruling_event, ruling_message, ruling_entry, rule_funds,
  after_ruling, after_ruling_delivery, ruling_tx, record_ruling,
}
use dispute_router.Ingest.Store.{Delivery, insert_delivery, mark_processed, mark_failed}
use dispute_router.Ingest.Store.Rows.{
  insert_delivery-Keeps, mark_failed-Keeps, mark_processed-Keeps,
}
use dispute_router.Ledger
use dispute_router.Ledger.Balance.{loses, releases, post}
use dispute_router.Outbox
use dispute_router.System.Rows.{Guard, Grows, Grows-same, Grows-update}
use dispute_router.System.Writes.{
  Keeps, Keeps-pure, Keeps-bind, Keeps-statement, begin_func-Grows, record_event-Keeps,
  insert-Keeps, post-Keeps,
}

-- A represented dispute, and the verdict.
abbrev pub RulingGuard : RulingWebhook → Guard
RulingGuard e d to = (d.state ≡ represented) × (to ≡ state_of e.event_data.outcome)

awaits_ruling-represented :
    (m : ℕ) (x : String) (d : DisputeRow) → awaits_ruling m x d ≡ true → d.state ≡ represented
unfolding awaits_ruling state_eq
awaits_ruling-represented m x d h = ground (arith, h)

module _ (e : RulingWebhook) where
  rule_row-Keeps :
      (m : ℕ) (o : Option DisputeRow) (s s' : Session) (a : Option DisputeRow)
      → rule_row m e s o ≡ ok (a, s')
      → Grows (RulingGuard e) s.db s'.db
  unfolding rule_row
  rule_row-Keeps m none s s' a h = Grows-same _ s.db s'.db (ground (arith, h)) (ground (arith, h))
  rule_row-Keeps m (some d) s s' a h =
      Grows-update (RulingGuard e) s.db s'.db (awaits_ruling m e.event_data.dispute_id)
        (state_of e.event_data.outcome) true e.event_data.decided_at
        (λ r k. (awaits_ruling-represented m e.event_data.dispute_id r k, refl)) (ground (arith, h))
        (ground (arith, h))

  rule_funds-Keeps : (b : Bool) (x : Ledger.Entry) → Keeps (RulingGuard e) (rule_funds b x)
  unfolding rule_funds post
  rule_funds-Keeps true x = post-Keeps _ (loses "representment lost") x
  rule_funds-Keeps false x = post-Keeps _ releases x

  after_ruling-Keeps :
      (d : Delivery) (id : ℕ) (o : Option DisputeRow)
      → Keeps (RulingGuard e) (after_ruling d e id o)
  unfolding after_ruling
  after_ruling-Keeps d id none =
      Keeps-bind _ (mark_failed id _) _ (mark_failed-Keeps _ id _) (λ _. Keeps-pure _ _)
  after_ruling-Keeps d id (some row) =
      Keeps-bind _ (record_event (ruling_event row.id id e)) _ (record_event-Keeps _ _) λ _.
        Keeps-bind _
          (rule_funds (state_eq (state_of e.event_data.outcome) lost)
            (ruling_entry d.merchant.id e row))
          _ (rule_funds-Keeps (state_eq (state_of e.event_data.outcome) lost) _)
          λ _.
            Keeps-bind _ (Outbox.insert (ruling_message d.merchant.id e row)) _ (insert-Keeps _ _)
              λ _.
                Keeps-bind _ (mark_processed id) _ (mark_processed-Keeps _ id) (λ _. Keeps-pure _ _)

  after_ruling_delivery-Keeps :
      (d : Delivery) (o : Option ℕ) → Keeps (RulingGuard e) (after_ruling_delivery d e o)
  unfolding after_ruling_delivery apply_ruling
  after_ruling_delivery-Keeps d none = Keeps-pure _ _
  after_ruling_delivery-Keeps d (some id) =
      Keeps-bind _ (apply_ruling d.merchant.id e) _
        (Keeps-statement _ _ λ s s' a h.
          rule_row-Keeps d.merchant.id
            (find_where (awaits_ruling d.merchant.id e.event_data.dispute_id) s.db.disputes) s s' a
            h)
        (after_ruling-Keeps d id)

  -- A ruling moves represented disputes only, to its verdict.
  pub record_ruling-Grows :
      (j : Bytes → Bool) (d : Delivery) (fates : List Fate) (now : ℕ) (db : Db)
      → Grows (RulingGuard e) db (record_ruling j d e fates now db).1
  unfolding record_ruling ruling_tx
  record_ruling-Grows j d fates now db = begin_func-Grows _ _ fates now db (
      Keeps-bind _ (insert_delivery j d e.event_type e.id) _
        (insert_delivery-Keeps _ j d e.event_type e.id) (after_ruling_delivery-Keeps d))
