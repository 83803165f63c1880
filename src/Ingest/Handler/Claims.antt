-- ===== src/Ingest/Handler/Claims.antt =====
-- internal/ingest/handler.go and idempotency.go: what becomes of a claim whose work did not finish.
use dispute_router.Common.{
  ℕ, ◌+◌, ◌<◌, ◌≡◌, ◌≢◌, refl, sym, inl, inr, String, true, none, some, List, [], ◌∷◌, Bool-cases,
  str_eq, eq_iff, arith, find_where, filter_where,
}
use dispute_router.Database.Schema.{Db}
use dispute_router.Database.Transaction.{Result, ok, err, Fate, works, fails, unseen}
use dispute_router.Ingest.Handler.{
  Incoming, event_id, Config, Request, Stores, duplicate, unavailable, internal_error, SeenKey,
  is_seen, without_key, set_seen, claim, release, record_event, after_write, write, after_claim,
  trusted,
}
use dispute_router.Ingest.Store.{Delivery, Recorded}

without_key-none :
    (id : String) (now : ℕ) (keys : List SeenKey)
    → find_where (is_seen id now) (without_key id keys) ≡ none
unfolding without_key find_where filter_where is_seen
without_key-none id now [] = refl
without_key-none id now (k ∷ keys) = elim (Bool-cases (str_eq k.event_id id)) [
  | inl e ↦ rw e (without_key-none id now keys)
  | inr e ↦ rw e (rw e (without_key-none id now keys))
]

after_write-released :
    (r : Request) (id : String) (seen : List SeenKey) (o : Result Recorded × Db) (now : ℕ)
    → (after_write r id seen o).0 ≡ internal_error
    → r.release_fate ≢ fails
    → find_where (is_seen id now) (after_write r id seen o).1.seen ≡ none
unfolding after_write release
after_write-released r id seen (err e, db) now h w = by_fate r.release_fate w
  where
    by_fate : (f : Fate) → f ≢ fails → find_where (is_seen id now) (release f id seen) ≡ none
    by_fate works g = (without_key-none id now seen)
    by_fate unseen g = (without_key-none id now seen)
    by_fate fails g = absurd (g refl)
after_write-released r id seen (ok (result, some e), db) now h w = absurd (ground (arith, h))
after_write-released r id seen (ok (result, none), db) now h w =
    elim (Bool-cases result.duplicate) [
      | inl e ↦ absurd (ground (arith, rw e at h))
      | inr e ↦ absurd (ground (arith, rw e at h))
    ]

-- After a write that failed, and whose claim was handed back, the next delivery of the event can claim it
-- at any time: the sender's retry is not taken for a duplicate.
pub write-released :
    (cfg : Config) (r : Request) (d : Delivery) (e : Incoming) (s : Stores) (ttl now : ℕ)
    → (write cfg r d e s).0 ≡ internal_error
    → r.release_fate ≢ fails
    → (claim ttl works (event_id e) now (write cfg r d e s).1.seen).0 ≡ ok true
unfolding write claim set_seen
write-released cfg r d e s ttl now h w =
    rw (after_write-released r (event_id e) s.seen (record_event cfg r d s.db e) now h w) refl

is_seen-fresh :
    (id id' : String) (now until : ℕ)
    → id ≡ id'
    → now < until
    → is_seen id now (record { event_id = id'; expires_at = until }) ≡ true
unfolding is_seen
is_seen-fresh id id' now until same lt =
    let named : str_eq id' id ≡ true = (eq_iff id' id).1 (sym same) in ground (arith, named, lt)

-- A claim that takes effect and whose answer is lost is not handed back: the request fails, and until the
-- key expires each delivery of the event is answered as a duplicate and stores nothing.
pub trusted-lost :
    (cfg : Config) (r later : Request) (d d' : Delivery) (e e' : Incoming) (s : Stores)
    → find_where (is_seen (event_id e) r.claimed_at) s.seen ≡ none
    → r.claim_fate ≡ unseen
    → event_id e' ≡ event_id e
    → later.claim_fate ≡ works
    → later.claimed_at < r.claimed_at + cfg.ttl
    → ((trusted cfg r d e s (ok true)).0 ≡ unavailable)
      × ((trusted cfg later d' e' (trusted cfg r d e s (ok true)).1 (ok true)).0 ≡ duplicate)
      × ((trusted cfg later d' e' (trusted cfg r d e s (ok true)).1 (ok true)).1.db ≡ s.db)
unfolding trusted after_claim claim set_seen find_where
trusted-lost cfg r later d d' e e' s fresh lost same w lt =
    let held : is_seen (event_id e') later.claimed_at
          (record { event_id = event_id e; expires_at = r.claimed_at + cfg.ttl })
        ≡ true =
      is_seen-fresh (event_id e') (event_id e) later.claimed_at (r.claimed_at + cfg.ttl) same lt in
    rw (fresh, lost) (rw (w, held) (refl, refl, refl))
