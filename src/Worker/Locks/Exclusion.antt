-- ===== src/Worker/Locks/Exclusion.antt =====
-- internal/worker/locks.go: who holds a lock, and who can take it away.
use dispute_router.Common.{
  ℕ, ◌+◌, ◌<◌, ◌≡◌, refl, ◌≢◌, ◌∙◌, ◌==◌, inl, inr, Bool, true, false, All, filter_where, List, [],
  ◌∷◌, Option, none, some, arith, find_where, Bool-cases,
}
use dispute_router.Common.Bytes.{Bytes, bytes_eq, eq-of-bytes_eq}
use dispute_router.Database.Transaction.{ok, Fate, works, fails, unseen}
use dispute_router.Worker.Locks.{
  LockKey, Lock, is_held, holder, acquire, set_nx, release, drop_key, new_lock, release_key,
  release_answer,
}

bytes_eq-ne : (s t : Bytes) → s ≢ t → bytes_eq s t ≡ false
bytes_eq-ne s t ne = elim (Bool-cases (bytes_eq s t)) [
  | inl e ↦ absurd (ne (eq-of-bytes_eq s t e))
  | inr e ↦ e
]

module _ (ttl id now later : ℕ) (token : Bytes) (keys keys' : List LockKey) (lock : Lock) where
  set_nx-holder :
      (o : Option LockKey) (fate : Fate)
      → set_nx o fate id now ttl token keys ≡ (ok (some lock), keys')
      → later < now + ttl
      → (o ≡ none) × (k : LockKey) × (holder id later keys' ≡ some k) × (k.token ≡ token)
  unfolding set_nx holder find_where is_held
  set_nx-holder none works h b =
      (refl, record { dispute_id = id; token = token; expires_at = now + ttl }, ground arith, refl)
  set_nx-holder none fails h b = absurd (ground arith)
  set_nx-holder none unseen h b = absurd (ground arith)
  set_nx-holder (some k) works h b = absurd (ground arith)
  set_nx-holder (some k) fails h b = absurd (ground arith)
  set_nx-holder (some k) unseen h b = absurd (ground arith)

set_nx-free :
    (ttl id now : ℕ) (token : Bytes) (keys keys' : List LockKey) (lock : Lock) (o : Option LockKey)
    (fate : Fate)
    → set_nx o fate id now ttl token keys ≡ (ok (some lock), keys')
    → o ≡ none
unfolding set_nx
set_nx-free ttl id now token keys keys' lock none fate h = refl
set_nx-free ttl id now token keys keys' lock (some k) works h = absurd (ground arith)
set_nx-free ttl id now token keys keys' lock (some k) fails h = absurd (ground arith)
set_nx-free ttl id now token keys keys' lock (some k) unseen h = absurd (ground arith)

module _ (id later : ℕ) (keys : List LockKey) (k : LockKey)
    (h : holder id later keys ≡ some k) where
  -- With a holder an Acquire changes nothing and yields no lock.
  held-acquire :
      (ttl : ℕ) (other : Bytes) (fate : Fate)
      → ((acquire ttl (some other) fate id later keys).1 ≡ keys)
        × ((lock : Lock) → (acquire ttl (some other) fate id later keys).0 ≢ ok (some lock))
  unfolding acquire
  held-acquire ttl other works = (ground (arith, h), λ lock e. ground (arith, h))
  held-acquire ttl other fails = (ground (arith, h), λ lock e. ground (arith, h))
  held-acquire ttl other unseen = (ground (arith, h), λ lock e. ground (arith, h))

  -- Another token's release changes nothing.
  held-release :
      (other : Bytes) (fate : Fate)
      → bytes_eq k.token other ≡ false
      → (release (record { dispute_id = id; token = other }) fate later keys).1 ≡ keys
  unfolding release
  held-release other works e = ground (arith, h)
  held-release other fails e = ground (arith, h)
  held-release other unseen e = ground (arith, h)

-- What is done to another dispute's key does not show.
drop_key-other :
    (id other t : ℕ) (keys : List LockKey)
    → (other == id) ≡ false
    → holder id t (drop_key other keys) ≡ holder id t keys
unfolding holder find_where drop_key filter_where is_held
drop_key-other id other t [] e = refl
drop_key-other id other t (k ∷ keys) e = elim (Bool-cases (k.dispute_id == other)) [
  | inl o ↦
      let miss : (k.dispute_id == id) ≡ false = ground (arith, e, o) in
      rw (o, miss) (drop_key-other id other t keys e)
  | inr o ↦ elim (Bool-cases (is_held id t k)) [
    | inl h ↦ rw (o, h) refl
    | inr h ↦ rw (o, h) (drop_key-other id other t keys e)
  ]
]

new_lock-other :
    (id other now ttl t : ℕ) (token : Bytes) (keys : List LockKey)
    → (other == id) ≡ false
    → holder id t (new_lock other now ttl token keys) ≡ holder id t keys
unfolding holder find_where new_lock is_held
new_lock-other id other now ttl t token keys e = rw e (drop_key-other id other t keys e)

acquire-other :
    (id other t ttl at : ℕ) (token : Bytes) (fate : Fate) (keys : List LockKey)
    → (other == id) ≡ false
    → holder id t (acquire ttl (some token) fate other at keys).1 ≡ holder id t keys
unfolding acquire set_nx
acquire-other id other t ttl at token fate keys e = by_holder fate (holder other at keys)
  where
    by_holder :
        (f : Fate) (o : Option LockKey)
        → holder id t (set_nx o f other at ttl token keys).1 ≡ holder id t keys
    by_holder works (some k) = refl
    by_holder works none = new_lock-other id other at ttl t token keys e
    by_holder fails (some k) = refl
    by_holder fails none = refl
    by_holder unseen (some k) = refl
    by_holder unseen none = new_lock-other id other at ttl t token keys e

release-other :
    (id other t at : ℕ) (token : Bytes) (fate : Fate) (keys : List LockKey)
    → (other == id) ≡ false
    → holder id t (release (record { dispute_id = other; token = token }) fate at keys).1
      ≡ holder id t keys
unfolding release release_key release_answer
release-other id other t at token fate keys e = by_holder fate (holder other at keys)
  where
    by_key :
        (o : Option LockKey)
        → holder id t (release_key o (record { dispute_id = other; token = token }) keys).1
          ≡ holder id t keys
    by_key none = refl
    by_key (some k) = elim (Bool-cases (bytes_eq k.token token)) [
      | inl same ↦ rw (same, release_key) (drop_key-other id other t keys e)
      | inr same ↦ rw (same, release_key) refl
    ]

    by_holder :
        (f : Fate) (o : Option LockKey)
        → holder id t
            (release_answer f keys
              (release_key o (record { dispute_id = other; token = token }) keys)).1
          ≡ holder id t keys
    by_holder works o = by_key o
    by_holder fails o = refl
    by_holder unseen o = by_key o

-- What others do, on any dispute: an Acquire, or a Release of a lock that they name by its token.
pub record Other : Type 0 where
  pub is_release : Bool
  pub ttl : ℕ
  pub dispute_id : ℕ
  pub token : Bytes
  pub fate : Fate
  pub at : ℕ

unfoldable pub run_other : Other → List LockKey → List LockKey
run_other o keys = elim o.is_release [
  | true ↦ (release (record { dispute_id = o.dispute_id; token = o.token }) o.fate o.at keys).1
  | false ↦ (acquire o.ttl (some o.token) o.fate o.dispute_id o.at keys).1
]

unfoldable pub run_others : List Other → List LockKey → List LockKey
unfolding run_other
run_others [] keys = keys
run_others (o ∷ os) keys = run_others os (run_other o keys)

-- Until the instant the dispute's key holds the token.
Owns : ℕ → Bytes → ℕ → List LockKey → Type 0
Owns id token until keys =
    (t : ℕ) → t < until → (k : LockKey) × (holder id t keys ≡ some k) × (k.token ≡ token)

module _ (id until : ℕ) (token : Bytes) where
  run_other-Owns :
      (o : Other) (keys : List LockKey)
      → o.at < until
      → token ≢ o.token
      → Owns id token until keys
      → Owns id token until (run_other o keys)
  unfolding Owns run_other
  run_other-Owns o keys b ne own = elim (Bool-cases (o.dispute_id == id)) [
    | inr e ↦ λ t l. let (k, held, mine) = own t l in (k, by_kind o.is_release t e ∙ held, mine)
    | inl e ↦ λ t l.
        let (k, held, mine) = own t l in
        (k, (λ i. holder id t (same o.is_release (ground arith) i)) ∙ held, mine)
  ]
    where
      by_kind :
          (r : Bool) (t : ℕ)
          → (o.dispute_id == id) ≡ false
          → holder id t (run_other (record o { is_release = r }) keys) ≡ holder id t keys
      by_kind true t e = release-other id o.dispute_id t o.at o.token o.fate keys e
      by_kind false t e = acquire-other id o.dispute_id t o.ttl o.at o.token o.fate keys e

      same : (r : Bool) → o.dispute_id ≡ id → run_other (record o { is_release = r }) keys ≡ keys
      same true e =
          let (k, held, mine) = own o.at b in
          rw e (
            held-release id o.at keys k held o.token o.fate
              (rw mine (bytes_eq-ne token o.token ne)))
      same false e =
          let (k, held, mine) = own o.at b in
          rw e (held-acquire id o.at keys k held o.ttl o.token o.fate).0

  run_others-Owns :
      (os : List Other) (keys : List LockKey)
      → All (λ o. (o.at < until) × (token ≢ o.token)) os
      → Owns id token until keys
      → Owns id token until (run_others os keys)
  unfolding run_others
  run_others-Owns [] keys h own = own
  run_others-Owns (o ∷ os) keys ((b, ne), h) own =
      run_others-Owns os (run_other o keys) h (run_other-Owns o keys b ne own)

-- An Acquire succeeds only if nobody holds the lock of this dispute. From then on, through any Acquires and Releases by others, under
-- other tokens and on any disputes, until the TTL lapses: the key still holds the token, an Acquire by another does not get
-- the lock, and neither it nor a Release with another token changes the keys.
pub acquire-excludes :
    (ttl id now later : ℕ) (token other : Bytes) (keys keys' : List LockKey) (lock rival : Lock)
    (fate fate' : Fate) (os : List Other)
    → acquire ttl (some token) fate id now keys ≡ (ok (some lock), keys')
    → All (λ o. (o.at < now + ttl) × (token ≢ o.token)) os
    → later < now + ttl
    → token ≢ other
    → let after = run_others os keys' in
      (holder id now keys ≡ none)
      × ((k : LockKey) × (holder id later after ≡ some k) × (k.token ≡ token))
      × ((acquire ttl (some other) fate' id later after).1 ≡ after)
      × ((acquire ttl (some other) fate' id later after).0 ≢ ok (some rival))
      × ((release (record { dispute_id = id; token = other }) fate' later after).1 ≡ after)
unfolding Owns
acquire-excludes ttl id now later token other keys keys' lock rival fate fate' os h others b ne =
    let first : Owns id token (now + ttl) keys' = (λ t l.
      let (free, k, held, mine) =
        set_nx-holder ttl id now t token keys keys' lock (holder id now keys) fate
          (unfold acquire in h) l in
      (k, held, mine)) in
    let free =
      set_nx-free ttl id now token keys keys' lock (holder id now keys) fate
        (unfold acquire in h) in
    let (k, held, mine) = run_others-Owns id (now + ttl) token os keys' others first later b in
    let (kept, refused) = held-acquire id later (run_others os keys') k held ttl other fate' in
    (
      free,
      (k, held, mine),
      kept,
      refused rival,
      held-release id later (run_others os keys') k held other fate'
          (rw mine (bytes_eq-ne token other ne)),
    )
