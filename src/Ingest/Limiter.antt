-- ===== src/Ingest/Limiter.antt =====
-- internal/ingest/ratelimit.go: the token bucket of one key in Redis. Tokens are counted in units of
-- 1/60000, in which a rate of `per_minute` is that many units in a millisecond; the script's doubles are
-- taken for exact.
pub mod Window
pub mod Expiry
use dispute_router.Common.{
  ℕ, ◌+◌, ◌-◌, ◌*◌, ◌/◌, Bool, true, false, List, [], ◌∷◌, Option, none, some, ltb, leb, min,
  if◌then◌else◌,
}
use dispute_router.Database.Transaction.{driver_error, Result, ok, err, Fate, works, fails, unseen}

-- One token.
abbrev pub unit : ℕ
unit = 60000

-- `Limiter`; its prefix is part of the key.
pub record Limiter : Type 0 where
  pub per_minute : ℕ
  pub burst : ℕ

-- The hash at a key, and the instant from which Redis no longer has it.
pub record Bucket : Type 0 where
  pub tokens : ℕ
  pub updated_ms : ℕ
  pub expires_ms : ℕ

-- The bucket that HMGET finds.
unfoldable pub present : ℕ → Option Bucket → Option Bucket
present at none = none
present at (some b) = if ltb at b.expires_ms then some b else none

-- The tokens after the refill, of a full burst at most.
unfoldable pub refilled : Limiter → ℕ → Option Bucket → ℕ
refilled l now none = l.burst * unit
refilled l now (some b) = min (l.burst * unit) (b.tokens + (now - b.updated_ms) * l.per_minute)

-- PEXPIRE's time: a full refill, rounded up, and a minute.
unfoldable pub lifetime : Limiter → ℕ
lifetime l = (l.burst * unit + (l.per_minute - 1)) / l.per_minute + 60000

unfoldable pub is_allowed : ℕ → Bool
is_allowed tokens = leb unit tokens

-- The tokens after the take.
unfoldable pub taken : ℕ → ℕ
taken tokens = if is_allowed tokens then tokens - unit else tokens

-- The script `tokenBucket`: `now` is the caller's clock, `at` is Redis's. It answers whether a token was
-- there, and how many whole ones are left.
unfoldable pub token_bucket : Limiter → ℕ → ℕ → Option Bucket → (Bool × ℕ) × Bucket
token_bucket l now at b =
    let tokens = refilled l now (present at b) in
    (
      (is_allowed tokens, taken tokens / unit),
      record { tokens = taken tokens; updated_ms = now; expires_ms = at + lifetime l },
    )

-- `Limiter.Allow`.
unfoldable pub allow : Limiter → Fate → ℕ → ℕ → Option Bucket → Result (Bool × ℕ) × Option Bucket
allow l works now at b = let (answer, b') = token_bucket l now at b in (ok answer, some b')
allow l unseen now at b = (err driver_error, some (token_bucket l now at b).1)
allow l fails now at b = (err driver_error, b)

-- The requests of one key, at the instants of the list by one clock: how many are let through.
unfoldable pub granted : Limiter → List ℕ → Option Bucket → ℕ
granted l [] b = 0
granted l (t ∷ ts) b =
    let (answer, b') = token_bucket l t t b in
    let rest = granted l ts (some b') in if answer.0 then rest + 1 else rest
