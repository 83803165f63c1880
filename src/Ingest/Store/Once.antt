-- ===== src/Ingest/Store/Once.antt =====
-- internal/ingest/store.go: an event takes effect once, whatever becomes of the answers.
use dispute_router.Common.{
  ℕ, ◌≡◌, sym, subst, ◌∙◌, [], ◌∷◌, ◌⊎◌, inl, inr, String, Bool, true, List, Option, none, arith,
}
use dispute_router.Common.Bytes.{Bytes}
use dispute_router.Database.Atomic.{Ends, begin_func-Ends, bind-eq-ok}
use dispute_router.Database.Schema.{Db}
use dispute_router.Database.Transaction.{ok, Fate, Session, session, later_fates, begin_func}
use dispute_router.Ingest.Event.{DisputeWebhook}
use dispute_router.Ingest.Store.{
  Delivery, Recorded, add_delivery, insert_delivery, after_delivery, record_tx, record_dispute,
  is_duplicate,
}
use dispute_router.Ingest.Store.Keys.{
  is_stored, find_where-is_stored, after_trip, insert_delivery-adds,
}
use dispute_router.Ingest.Store.Kept.{record_tx-stores, record_tx-Stores}

record_tx-again :
    (j : Bytes → Bool) (d : Delivery) (e : DisputeWebhook) (s s' : Session) (a : Recorded)
    → is_stored e.id s.db.deliveries ≡ true
    → record_tx j d e s ≡ ok (a, s')
    → (a ≡ is_duplicate) × (s'.db ≡ s.db)
unfolding record_tx after_delivery add_delivery
record_tx-again j d e s s' a k h =
    let (row, found) = find_where-is_stored e.id s.db.deliveries k in
    let (o, t, first, rest) =
      bind-eq-ok (insert_delivery j d e.event_type e.id) (after_delivery d e) s h in
    let added = insert_delivery-adds j d e.event_type e.id s t o first in
    let kept : ◌≡◌ {A = Option ℕ × Session} (none, after_trip s) (o, t) = rw found at added in
    let ended = subst (λ x. after_delivery d e x.0 x.1 ≡ ok (a, s')) (sym kept) rest in
    (ground (arith, ended), ground (arith, ended))

-- A delivery of an event, and what becomes of its round trips.
pub record Arrival : Type 0 where
  pub delivery : Delivery
  pub event : DisputeWebhook
  pub fates : List Fate
  pub now : ℕ

unfoldable pub run_arrivals : (Bytes → Bool) → List Arrival → Db → Db
run_arrivals j [] db = db
run_arrivals j (a ∷ more) db =
    run_arrivals j more (record_dispute j a.delivery a.event a.fates a.now db).1

run_arrivals-is_stored :
    (j : Bytes → Bool) (more : List Arrival) (db : Db) (key : String)
    → is_stored key db.deliveries ≡ true
    → is_stored key (run_arrivals j more db).deliveries ≡ true
unfolding run_arrivals record_dispute
run_arrivals-is_stored j [] db key h = h
run_arrivals-is_stored j (a ∷ more) db key h =
    run_arrivals-is_stored j more (begin_func (record_tx j a.delivery a.event) a.fates a.now db).1
      key (one (begin_func-Ends (record_tx j a.delivery a.event) a.now db a.fates))
  where
    after : Db
    after = (begin_func (record_tx j a.delivery a.event) a.fates a.now db).1

    one :
        Ends
          (record_tx j a.delivery a.event)
          a.fates
          a.now
          db
          (begin_func (record_tx j a.delivery a.event) a.fates a.now db).0
          after
        → is_stored key after.deliveries ≡ true
    one (inl (x, r, same)) = subst (λ d. is_stored key d.deliveries ≡ true) (sym same) h
    one (inr (x, s, done, same, answer, balanced)) =
        subst (λ d. is_stored key d.deliveries ≡ true) (sym same)
          (record_tx-Stores j a.delivery a.event key (session db a.now (later_fates a.fates)) s x
            done h)

-- A delivery of an event whose key is stored changes nothing, and is a duplicate if it is answered.
record_dispute-duplicate :
    (j : Bytes → Bool) (d : Delivery) (e : DisputeWebhook) (fates : List Fate) (now : ℕ) (db : Db)
    → is_stored e.id db.deliveries ≡ true
    → ((record_dispute j d e fates now db).1 ≡ db)
      × ((x : Recorded) → (record_dispute j d e fates now db).0 ≡ ok x → x ≡ is_duplicate)
unfolding record_dispute
record_dispute-duplicate j d e fates now db k =
    by_end (begin_func-Ends (record_tx j d e) now db fates)
  where
    by_end :
        Ends
          (record_tx j d e)
          fates
          now
          db
          (begin_func (record_tx j d e) fates now db).0
          (begin_func (record_tx j d e) fates now db).1
        → ((begin_func (record_tx j d e) fates now db).1 ≡ db)
          × ((x : Recorded)
              → (begin_func (record_tx j d e) fates now db).0 ≡ ok x
              → x ≡ is_duplicate)
    by_end (inl (x, r, same)) = (same, λ y q. absurd (ground (arith, q, r)))
    by_end (inr (a, s, done, same, answer, balanced)) =
        let (dup, kept) = record_tx-again j d e (session db now (later_fates fates)) s a k done in
        (same ∙ kept, λ y q. ground (arith, q, answer, dup))

-- However the delivery of an event ended, its answer lost included: either it has changed nothing, or, after whatever other
-- deliveries of disputes have been recorded since, with any ends, a delivery with the same event id changes nothing, and is
-- answered as a duplicate if not with an error.
pub record_dispute-again :
    (is_jsonb : Bytes → Bool) (d d' : Delivery) (e e' : DisputeWebhook) (fates later : List Fate)
    (now at : ℕ) (since : List Arrival) (db : Db)
    → e'.id ≡ e.id
    → let first = (record_dispute is_jsonb d e fates now db).1 in
      let after = run_arrivals is_jsonb since first in
      (first ≡ db)
      ⊎ (((record_dispute is_jsonb d' e' later at after).1 ≡ after)
          × ((x : Recorded)
              → (record_dispute is_jsonb d' e' later at after).0 ≡ ok x
              → x ≡ is_duplicate))
unfolding record_dispute
record_dispute-again j d d' e e' fates later now at since db same_id =
    elim (begin_func-Ends (record_tx j d e) now db fates) [
      | inl (x, r, same) ↦ inl same
      | inr (a, s, done, same, answer, balanced) ↦
          let stored = record_tx-stores j d e (session db now (later_fates fates)) s a done in
          let first = (begin_func (record_tx j d e) fates now db).1 in
          inr (
            record_dispute-duplicate j d' e' later at (run_arrivals j since first) (
              run_arrivals-is_stored j since first e'.id (
                subst (λ k. is_stored k first.deliveries ≡ true) (sym same_id)
                  (subst (λ x. is_stored e.id x.deliveries ≡ true) (sym same) stored))))
    ]
