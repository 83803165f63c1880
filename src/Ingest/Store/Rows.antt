-- ===== src/Ingest/Store/Rows.antt =====
-- internal/ingest/store.go: how the webhooks move the rows of the disputes table.
use dispute_router.Common.{ℕ, ◌≡◌, refl, String, Bool, List, Option, none, some, arith, find_where}
use dispute_router.Common.Bytes.{Bytes}
use dispute_router.Database.Schema.{Db, DisputeRow, ChargeRow}
use dispute_router.Database.Transaction.{ok, Fate, Session}
use dispute_router.Dispute.{Kind, alert, chargeback, other_kind, kind_of}
use dispute_router.Events.{record_event}
use dispute_router.Ingest.Event.{DisputeWebhook}
use dispute_router.Ingest.Store.{
  Delivery, insert_delivery, mark_processed, mark_failed, find_charge, insert_dispute, add_dispute,
  dispute_row, is_dispute, hold_funds, held_entry, received_event, received_message, after_dispute,
  after_charge, after_delivery, record_tx, record_dispute,
}
use dispute_router.Ledger.Balance.{holds, post}
use dispute_router.Outbox
use dispute_router.System.Rows.{Guard, Grows, Grows-same, Grows-append}
use dispute_router.System.Writes.{
  Keeps, Keeps-pure, Keeps-bind, Keeps-statement, begin_func-Grows, record_event-Keeps,
  insert-Keeps, post-Keeps,
}

module _ (G : Guard) where
  pub insert_delivery-Keeps :
      (j : Bytes → Bool) (d : Delivery) (t k : String) → Keeps G (insert_delivery j d t k)
  unfolding insert_delivery
  insert_delivery-Keeps j d t k s s' a h =
      Grows-same G s.db s'.db (ground (arith, h)) (ground (arith, h))

  pub mark_processed-Keeps : (id : ℕ) → Keeps G (mark_processed id)
  unfolding mark_processed
  mark_processed-Keeps id s s' a h = Grows-same G s.db s'.db (ground (arith, h)) (ground (arith, h))

  pub mark_failed-Keeps : (id : ℕ) (why : String) → Keeps G (mark_failed id why)
  unfolding mark_failed
  mark_failed-Keeps id why s s' a h =
      Grows-same G s.db s'.db (ground (arith, h)) (ground (arith, h))

  find_charge-Keeps : (m : ℕ) (x : String) → Keeps G (find_charge m x)
  unfolding find_charge
  find_charge-Keeps m x s s' a h = Grows-same G s.db s'.db (ground (arith, h)) (ground (arith, h))

  add_dispute-Keeps :
      (m t : ℕ) (e : DisputeWebhook) (o : Option DisputeRow) (s s' : Session) (a : Option ℕ)
      → add_dispute m t e s o ≡ ok (a, s')
      → Grows G s.db s'.db
  unfolding add_dispute dispute_row
  add_dispute-Keeps m t e (some d) s s' a h =
      Grows-same G s.db s'.db (ground (arith, h)) (ground (arith, h))
  add_dispute-Keeps m t e none s s' a h =
      Grows-append G s.db s'.db (dispute_row s.db.next_id m t e) refl refl (ground (arith, h))
        (ground (arith, h))

  insert_dispute-Keeps : (m t : ℕ) (e : DisputeWebhook) → Keeps G (insert_dispute m t e)
  unfolding insert_dispute
  insert_dispute-Keeps m t e = Keeps-statement G _ λ s s' a h.
      add_dispute-Keeps m t e (find_where (is_dispute m e.event_data.dispute_id) s.db.disputes) s s'
        a h

  hold_funds-Keeps : (k : Kind) (i m : ℕ) (e : DisputeWebhook) → Keeps G (hold_funds k i m e)
  unfolding hold_funds post
  hold_funds-Keeps chargeback i m e =
      post-Keeps G (holds e.event_data.reason_code) (held_entry i m e)
  hold_funds-Keeps alert i m e = Keeps-pure G tt
  hold_funds-Keeps (other_kind k) i m e = Keeps-pure G tt

  after_dispute-Keeps :
      (d : Delivery) (e : DisputeWebhook) (id : ℕ) (o : Option ℕ) → Keeps G (after_dispute d e id o)
  unfolding after_dispute
  after_dispute-Keeps d e id none =
      Keeps-bind G (mark_processed id) _ (mark_processed-Keeps id) (λ _. Keeps-pure G _)
  after_dispute-Keeps d e id (some i) =
      Keeps-bind G (hold_funds (kind_of e.event_data.kind) i d.merchant.id e) _
        (hold_funds-Keeps (kind_of e.event_data.kind) i d.merchant.id e)
        λ _. Keeps-bind G (record_event (received_event i id e)) _ (record_event-Keeps G _) λ _.
          Keeps-bind G (Outbox.insert (received_message i d.merchant.id e)) _ (insert-Keeps G _)
            λ _. Keeps-bind G (mark_processed id) _ (mark_processed-Keeps id) (λ _. Keeps-pure G _)

  after_charge-Keeps :
      (d : Delivery) (e : DisputeWebhook) (id : ℕ) (o : Option ChargeRow)
      → Keeps G (after_charge d e id o)
  unfolding after_charge
  after_charge-Keeps d e id none =
      Keeps-bind G (mark_failed id _) _ (mark_failed-Keeps id _) (λ _. Keeps-pure G _)
  after_charge-Keeps d e id (some t) =
      Keeps-bind G (insert_dispute d.merchant.id t.id e) _
        (insert_dispute-Keeps d.merchant.id t.id e) (after_dispute-Keeps d e id)

  after_delivery-Keeps :
      (d : Delivery) (e : DisputeWebhook) (o : Option ℕ) → Keeps G (after_delivery d e o)
  unfolding after_delivery
  after_delivery-Keeps d e none = Keeps-pure G _
  after_delivery-Keeps d e (some id) =
      Keeps-bind G (find_charge d.merchant.id e.event_data.transaction_id) _ (find_charge-Keeps _ _)
        (after_charge-Keeps d e id)

  -- A delivery of a dispute moves no row: it can only add one, as received.
  pub record_dispute-Grows :
      (j : Bytes → Bool) (d : Delivery) (e : DisputeWebhook) (fates : List Fate) (now : ℕ) (db : Db)
      → Grows G db (record_dispute j d e fates now db).1
  unfolding record_dispute record_tx
  record_dispute-Grows j d e fates now db = begin_func-Grows G _ fates now db (
      Keeps-bind G (insert_delivery j d e.event_type e.id) _
        (insert_delivery-Keeps j d e.event_type e.id) (after_delivery-Keeps d e))
