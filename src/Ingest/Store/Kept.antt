-- ===== src/Ingest/Store/Kept.antt =====
-- internal/ingest/store.go: no statement of a delivery forgets the key of another.
use dispute_router.Common.{
  ℕ, suc, ◌≡◌, refl, subst, ap, ◌∙◌, String, Bool, true, Option, none, some, arith, find_where,
  ◌==◌,
}
use dispute_router.Common.Bytes.{Bytes}
use dispute_router.Database.Atomic.{bind-eq-ok, sent-eq-ok}
use dispute_router.Database.Schema.{processed, failed, ChargeRow, DisputeRow}
use dispute_router.Database.Transaction.{ok, Session, Tx, ◌>>=◌, pure, next_fate, later_fates}
use dispute_router.Dispute.{Kind, alert, chargeback, other_kind, kind_of}
use dispute_router.Events.{Event, record_event}
use dispute_router.Ingest.Event.{DisputeWebhook}
use dispute_router.Ingest.Store.{
  Delivery, Recorded, insert_delivery, mark_processed, mark_failed, find_charge, has_key,
  insert_dispute, add_dispute, is_dispute, hold_funds, held_entry, received_event, received_message,
  after_dispute, after_charge, after_delivery, record_tx, is_duplicate,
}
use dispute_router.Ingest.Store.Keys.{
  is_stored, is_stored-update, after_trip, insert_delivery-adds, add_delivery-keeps,
  insert_delivery-stores,
}
use dispute_router.Ledger.Balance.{holds, post}
use dispute_router.Ledger.Frame.{post-frame}
use dispute_router.Outbox

-- A transaction's body that forgets no key.
abbrev pub Stores : {A : Type 0} → Tx A → Type 0
Stores {A} m =
    (key : String) (s s' : Session) (a : A)
    → m s ≡ ok (a, s')
    → is_stored key s.db.deliveries ≡ true
    → is_stored key s'.db.deliveries ≡ true

Stores-same :
    {A : Type 0} (m : Tx A)
    → ((s s' : Session) (a : A) → m s ≡ ok (a, s') → s'.db.deliveries ≡ s.db.deliveries)
    → Stores m
Stores-same m f key s s' a h k = rw (f s s' a h) k

Stores-bind :
    {A B : Type 0} (m : Tx A) (f : A → Tx B)
    → Stores m
    → ((a : A) → Stores (f a))
    → Stores (m >>= f)
Stores-bind m f k l key s s' b h e =
    let (a, t, first, rest) = bind-eq-ok m f s h in l a key t s' b rest (k key s t a first e)

Stores-pure : {A : Type 0} (a : A) → Stores (pure a)
Stores-pure a = Stores-same (pure a) (λ s s' b h. ground (arith, h))

mark_processed-Stores : (id : ℕ) → Stores (mark_processed id)
unfolding mark_processed
mark_processed-Stores id key s s' a h k =
    let after =
      is_stored-update key (λ row. row.id == id)
        (λ row. record row {
          status = processed;
          processed_at = some s.now;
          attempts = suc row.attempts;
        })
        s.db.deliveries (λ row. refl) in
    subst (λ x. is_stored key x ≡ true) (ground (arith, h)) (after ∙ k)

mark_failed-Stores : (id : ℕ) (why : String) → Stores (mark_failed id why)
unfolding mark_failed
mark_failed-Stores id why key s s' a h k =
    let after =
      is_stored-update key (λ row. row.id == id)
        (λ row. record row {
          status = failed;
          last_error = some why;
          attempts = suc row.attempts;
          processed_at = some s.now;
        })
        s.db.deliveries (λ row. refl) in
    subst (λ x. is_stored key x ≡ true) (ground (arith, h)) (after ∙ k)

add_dispute-deliveries :
    (m t : ℕ) (e : DisputeWebhook) (o : Option DisputeRow) (s s' : Session) (a : Option ℕ)
    → add_dispute m t e s o ≡ ok (a, s')
    → s'.db.deliveries ≡ s.db.deliveries
unfolding add_dispute
add_dispute-deliveries m t e (some d) s s' a h = ground (arith, h)
add_dispute-deliveries m t e none s s' a h = ground (arith, h)

insert_dispute-Stores : (m t : ℕ) (e : DisputeWebhook) → Stores (insert_dispute m t e)
unfolding insert_dispute
insert_dispute-Stores m t e = Stores-same (insert_dispute m t e) λ s s' a h.
    add_dispute-deliveries m t e (find_where (is_dispute m e.event_data.dispute_id) s.db.disputes)
      (record s { fates = later_fates s.fates }) s' a (sent-eq-ok (next_fate s.fates) _ h)

hold_funds-Stores : (k : Kind) (i m : ℕ) (e : DisputeWebhook) → Stores (hold_funds k i m e)
unfolding hold_funds post
hold_funds-Stores chargeback i m e = Stores-same (hold_funds chargeback i m e) λ s s' a h.
    (post-frame (holds e.event_data.reason_code) (held_entry i m e) s s' h).same_deliveries
hold_funds-Stores alert i m e = Stores-pure tt
hold_funds-Stores (other_kind k) i m e = Stores-pure tt

record_event-Stores : (x : Event) → Stores (record_event x)
unfolding record_event
record_event-Stores x = Stores-same (record_event x) (λ s s' a h. ground (arith, h))

insert-Stores : (x : Outbox.Entry) → Stores (Outbox.insert x)
unfolding Outbox.insert
insert-Stores x = Stores-same (Outbox.insert x) (λ s s' a h. ground (arith, h))

after_dispute-Stores :
    (d : Delivery) (e : DisputeWebhook) (id : ℕ) (o : Option ℕ) → Stores (after_dispute d e id o)
unfolding after_dispute
after_dispute-Stores d e id none =
    Stores-bind (mark_processed id) _ (mark_processed-Stores id) (λ _. Stores-pure _)
after_dispute-Stores d e id (some i) =
    Stores-bind (hold_funds (kind_of e.event_data.kind) i d.merchant.id e) _
      (hold_funds-Stores (kind_of e.event_data.kind) i d.merchant.id e)
      λ _. Stores-bind (record_event (received_event i id e)) _ (record_event-Stores _) λ _.
        Stores-bind (Outbox.insert (received_message i d.merchant.id e)) _ (insert-Stores _)
          λ _. Stores-bind (mark_processed id) _ (mark_processed-Stores id) (λ _. Stores-pure _)

after_charge-Stores :
    (d : Delivery) (e : DisputeWebhook) (id : ℕ) (o : Option ChargeRow)
    → Stores (after_charge d e id o)
unfolding after_charge
after_charge-Stores d e id none =
    Stores-bind (mark_failed id _) _ (mark_failed-Stores id _) (λ _. Stores-pure _)
after_charge-Stores d e id (some t) =
    Stores-bind (insert_dispute d.merchant.id t.id e) _ (insert_dispute-Stores d.merchant.id t.id e)
      (after_dispute-Stores d e id)

find_charge-Stores : (m : ℕ) (x : String) → Stores (find_charge m x)
unfolding find_charge
find_charge-Stores m x = Stores-same (find_charge m x) (λ s s' a h. ground (arith, h))

after_delivery-Stores :
    (d : Delivery) (e : DisputeWebhook) (o : Option ℕ) → Stores (after_delivery d e o)
unfolding after_delivery
after_delivery-Stores d e none = Stores-pure is_duplicate
after_delivery-Stores d e (some id) =
    Stores-bind (find_charge d.merchant.id e.event_data.transaction_id) _
      (find_charge-Stores d.merchant.id e.event_data.transaction_id) (after_charge-Stores d e id)

insert_delivery-Stores :
    (j : Bytes → Bool) (d : Delivery) (t k : String) → Stores (insert_delivery j d t k)
insert_delivery-Stores j d t k = λ key s s' o h there.
    subst (λ x. is_stored key x.db.deliveries ≡ true)
      (ap (λ r. r.1) (insert_delivery-adds j d t k s s' o h))
      (add_delivery-keeps d t k key (after_trip s) (find_where (has_key k) s.db.deliveries) there)

pub record_tx-Stores :
    (j : Bytes → Bool) (d : Delivery) (e : DisputeWebhook) → Stores (record_tx j d e)
unfolding record_tx
record_tx-Stores j d e =
    Stores-bind (insert_delivery j d e.event_type e.id) (after_delivery d e)
      (insert_delivery-Stores j d e.event_type e.id) (after_delivery-Stores d e)

pub record_tx-stores :
    (j : Bytes → Bool) (d : Delivery) (e : DisputeWebhook) (s s' : Session) (a : Recorded)
    → record_tx j d e s ≡ ok (a, s')
    → is_stored e.id s'.db.deliveries ≡ true
unfolding record_tx
record_tx-stores j d e s s' a h =
    let (o, t, first, rest) = bind-eq-ok (insert_delivery j d e.event_type e.id) _ s h in
    after_delivery-Stores d e o e.id t s' a rest
      (insert_delivery-stores j d e.event_type e.id s t o first)
