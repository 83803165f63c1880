-- ===== src/Ingest/Store/Keys.antt =====
-- internal/ingest/store.go: the unique key of a delivery.
use dispute_router.Common.{
  ℕ, ◌≡◌, refl, subst, ap, ◌⊎◌, inl, inr, String, Bool, true, false, ◌||◌, List, [], ◌∷◌, ◌++◌,
  Option, none, some, arith, find_where, update_where, Bool-cases, eq_iff,
}
use dispute_router.Common.Bytes.{Bytes}
use dispute_router.Database.Atomic.{sent-eq-ok}
use dispute_router.Database.Schema.{DeliveryRow}
use dispute_router.Database.Transaction.{ok, Session, next_fate, later_fates}
use dispute_router.Ingest.Store.{Delivery, has_key, delivery_row, add_delivery, insert_delivery}

-- Is there a delivery with this key?
unfoldable pub is_stored : String → List DeliveryRow → Bool
is_stored key [] = false
is_stored key (row ∷ rows) = has_key key row || is_stored key rows

pub find_where-is_stored :
    (key : String) (rows : List DeliveryRow)
    → is_stored key rows ≡ true
    → (row : DeliveryRow) × (find_where (has_key key) rows ≡ some row)
unfolding is_stored find_where
find_where-is_stored key [] h = absurd (ground (arith, h))
find_where-is_stored key (row ∷ rows) h = elim (Bool-cases (has_key key row)) [
  | inl e ↦ (row, rw e refl)
  | inr e ↦ let (x, found) = find_where-is_stored key rows (rw e at h) in (x, rw e found)
]

is_stored-found :
    (key : String) (rows : List DeliveryRow) (row : DeliveryRow)
    → find_where (has_key key) rows ≡ some row
    → is_stored key rows ≡ true
unfolding is_stored find_where
is_stored-found key [] row h = absurd (ground (arith, h))
is_stored-found key (x ∷ rows) row h = elim (Bool-cases (has_key key x)) [
  | inl e ↦ rw e refl
  | inr e ↦ rw e (is_stored-found key rows row (rw e at h))
]

is_stored-append :
    (key : String) (rows : List DeliveryRow) (row : DeliveryRow)
    → has_key key row ≡ true
    → is_stored key (rows ++ (row ∷ [])) ≡ true
unfolding is_stored
is_stored-append key [] row h = ground (arith, h)
is_stored-append key (x ∷ rows) row h = ground (arith, is_stored-append key rows row h)

pub is_stored-update :
    (key : String) (p : DeliveryRow → Bool) (f : DeliveryRow → DeliveryRow)
    (rows : List DeliveryRow)
    → ((row : DeliveryRow) → (f row).idempotency_key ≡ row.idempotency_key)
    → is_stored key (update_where p f rows) ≡ is_stored key rows
unfolding is_stored update_where has_key
is_stored-update key p f [] k = refl
is_stored-update key p f (x ∷ rows) k = elim (Bool-cases (p x)) [
  | inl e ↦ rw e (rw (k x) (rw (is_stored-update key p f rows k) refl))
  | inr e ↦ rw e (rw (is_stored-update key p f rows k) refl)
]

-- What the INSERT of a delivery leaves.
add_delivery-stores :
    (d : Delivery) (t key : String) (s : Session) (o : Option DeliveryRow)
    → find_where (has_key key) s.db.deliveries ≡ o
    → is_stored key (add_delivery d t key s o).1.db.deliveries ≡ true
unfolding add_delivery has_key
add_delivery-stores d t key s (some row) h = is_stored-found key s.db.deliveries row h
add_delivery-stores d t key s none h =
    is_stored-append key s.db.deliveries (delivery_row s.db.next_id d t key)
      ((eq_iff key key).1 refl)

is_stored-grown :
    (key : String) (rows : List DeliveryRow) (row : DeliveryRow)
    → is_stored key rows ≡ true
    → is_stored key (rows ++ (row ∷ [])) ≡ true
unfolding is_stored
is_stored-grown key [] row h = absurd (ground (arith, h))
is_stored-grown key (x ∷ rows) row h = ground (arith, h, is_stored-grown key rows row)

-- The INSERT of a delivery forgets no key.
pub add_delivery-keeps :
    (d : Delivery) (t key other : String) (s : Session) (o : Option DeliveryRow)
    → is_stored other s.db.deliveries ≡ true
    → is_stored other (add_delivery d t key s o).1.db.deliveries ≡ true
unfolding add_delivery
add_delivery-keeps d t key other s (some row) h = h
add_delivery-keeps d t key other s none h =
    is_stored-grown other s.db.deliveries (delivery_row s.db.next_id d t key) h

abbrev pub after_trip : Session → Session
after_trip s = record s { fates = later_fates s.fates }

pub insert_delivery-adds :
    (j : Bytes → Bool) (d : Delivery) (t key : String) (s s' : Session) (o : Option ℕ)
    → insert_delivery j d t key s ≡ ok (o, s')
    → add_delivery d t key (after_trip s) (find_where (has_key key) s.db.deliveries) ≡ (o, s')
unfolding insert_delivery
insert_delivery-adds j d t key s s' o h = by_body (Bool-cases (j d.raw))
  where
    by_body :
        (j d.raw ≡ true) ⊎ (j d.raw ≡ false)
        → add_delivery d t key (after_trip s) (find_where (has_key key) s.db.deliveries) ≡ (o, s')
    by_body (inl e) = ground (arith, rw e at (sent-eq-ok (next_fate s.fates) _ h))
    by_body (inr e) = absurd (ground (arith, rw e at (sent-eq-ok (next_fate s.fates) _ h)))

pub insert_delivery-stores :
    (j : Bytes → Bool) (d : Delivery) (t key : String) (s s' : Session) (o : Option ℕ)
    → insert_delivery j d t key s ≡ ok (o, s')
    → is_stored key s'.db.deliveries ≡ true
insert_delivery-stores j d t key s s' o h =
    subst (λ x. is_stored key x.db.deliveries ≡ true)
      (ap (λ r. r.1) (insert_delivery-adds j d t key s s' o h))
      (add_delivery-stores d t key (after_trip s) (find_where (has_key key) s.db.deliveries) refl)
