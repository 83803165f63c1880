-- ===== src/Worker/Locks.antt =====
-- internal/worker/locks.go: one lock per dispute in Redis, owned through a token and let go by its TTL.
-- A token is 16 random bytes in hex, here the bytes themselves; `none` is a failing random source.
pub mod Exclusion
use dispute_router.Common.{
  ℕ, ◌+◌, Bool, true, false, not, ◌&&◌, List, [], ◌∷◌, Option, none, some, find_where, filter_where,
  ltb, ◌==◌,
}
use dispute_router.Common.Bytes.{Bytes, bytes_eq}
use dispute_router.Database.Transaction.{driver_error, Result, ok, err, Fate, works, fails, unseen}

-- A key lock:dispute:<id>, its value and the instant from which Redis no longer has it.
pub record LockKey : Type 0 where
  pub dispute_id : ℕ
  pub token : Bytes
  pub expires_at : ℕ

-- `Lock`.
pub record Lock : Type 0 where
  pub dispute_id : ℕ
  pub token : Bytes

unfoldable pub is_held : ℕ → ℕ → LockKey → Bool
is_held id now k = k.dispute_id == id && ltb now k.expires_at

-- GET of a dispute's key.
unfoldable pub holder : ℕ → ℕ → List LockKey → Option LockKey
holder id now = find_where (is_held id now)

drop_key : ℕ → List LockKey → List LockKey
drop_key id = filter_where (λ k. not (k.dispute_id == id))

new_lock : ℕ → ℕ → ℕ → Bytes → List LockKey → List LockKey
unfolding drop_key
new_lock id now ttl token keys =
    record { dispute_id = id; token = token; expires_at = now + ttl } ∷ drop_key id keys

set_nx :
    Option LockKey → Fate → ℕ → ℕ → ℕ → Bytes → List LockKey → Result (Option Lock) × List LockKey
unfolding new_lock
set_nx (some k) works id now ttl token keys = (ok none, keys)
set_nx none works id now ttl token keys =
    (ok (some (record { dispute_id = id; token = token })), new_lock id now ttl token keys)
set_nx (some k) unseen id now ttl token keys = (err driver_error, keys)
set_nx none unseen id now ttl token keys = (err driver_error, new_lock id now ttl token keys)
set_nx k fails id now ttl token keys = (err driver_error, keys)

-- `Locks.Acquire`. A nil Lock is `none`.
unfoldable pub acquire :
    ℕ → Option Bytes → Fate → ℕ → ℕ → List LockKey → Result (Option Lock) × List LockKey
unfolding set_nx
acquire ttl none fate id now keys = (err driver_error, keys)
acquire ttl (some token) fate id now keys = set_nx (holder id now keys) fate id now ttl token keys

-- The script `release`: DEL if the value is the caller's token.
release_key : Option LockKey → Lock → List LockKey → Bool × List LockKey
unfolding drop_key
release_key none lock keys = (false, keys)
release_key (some k) lock keys = elim (bytes_eq k.token lock.token) [
  | true ↦ (true, drop_key lock.dispute_id keys)
  | false ↦ (false, keys)
]

release_answer : Fate → List LockKey → Bool × List LockKey → Result Bool × List LockKey
release_answer works keys (held, after) = (ok held, after)
release_answer fails keys (held, after) = (err driver_error, keys)
release_answer unseen keys (held, after) = (err driver_error, after)

-- `Lock.Release`.
unfoldable pub release : Lock → Fate → ℕ → List LockKey → Result Bool × List LockKey
unfolding release_key release_answer
release lock fate now keys =
    release_answer fate keys (release_key (holder lock.dispute_id now keys) lock keys)
