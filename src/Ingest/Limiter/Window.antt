-- ===== src/Ingest/Limiter/Window.antt =====
-- internal/ingest/ratelimit.go: how many requests of one key get through in a window of time.
use dispute_router.Common.{
  ℕ, zero, suc, ◌+◌, ◌-◌, ◌*◌, ◌≤◌, ◌<◌, ◌≡◌, refl, List, [], ◌∷◌, Option, none, some, arith,
  if◌then◌else◌,
}
use dispute_router.Ingest.Limiter.Expiry.{Kept, present-refilled}
use dispute_router.Ingest.Limiter.{
  Limiter, Bucket, unit, present, refilled, is_allowed, taken, token_bucket, granted,
}

-- The instants do not go back, from `k` on, and end at `e`.
abbrev pub Rising : ℕ → ℕ → List ℕ → Type 0
Rising k e [] = k ≤ e
Rising k e (t ∷ ts) = (k ≤ t) × Rising t e ts

Rising-le : (k e : ℕ) (ts : List ℕ) → Rising k e ts → k ≤ e
Rising-le k e [] h = h
Rising-le k e (t ∷ ts) (a, h) = let r = Rising-le t e ts h in omega arith

refilled-le : (l : Limiter) (now : ℕ) (b : Option Bucket) → refilled l now b ≤ l.burst * unit
unfolding refilled
refilled-le l now none = omega arith
refilled-le l now (some b) = ground arith

-- What the take leaves, and the token that it gave.
taken-unit : (tokens : ℕ) → (if is_allowed tokens then 1 else 0) * unit + taken tokens ≡ tokens
unfolding taken is_allowed
taken-unit tokens = ground arith

after : Limiter → ℕ → Option Bucket → Bucket
after l t b = (token_bucket l t t b).1

granted-step :
    (l : Limiter) (t : ℕ) (ts : List ℕ) (b : Option Bucket)
    → granted l (t ∷ ts) b
      ≡ (if is_allowed (refilled l t (present t b)) then 1 else 0)
        + granted l ts (some (after l t b))
unfolding granted token_bucket after
granted-step l t ts b = ground arith

-- What one request and those after it cost, when those after it cost what the bucket then holds.
granted-spent :
    (l : Limiter) (t e : ℕ) (ts : List ℕ) (b : Option Bucket)
    → granted l ts (some (after l t b)) * unit
      ≤ taken (refilled l t (present t b)) + (e - t) * l.per_minute
    → granted l (t ∷ ts) b * unit ≤ refilled l t (present t b) + (e - t) * l.per_minute
granted-spent l t e ts b h =
    omega (arith, granted-step l t ts b, taken-unit (refilled l t (present t b)))

after-Kept : (l : Limiter) (t : ℕ) (b : Option Bucket) → Kept l (after l t b)
unfolding after token_bucket
after-Kept l t b = refl

refilled-spread :
    (l : Limiter) (t e : ℕ) (b : Bucket)
    → 0 < l.per_minute
    → Kept l b
    → b.updated_ms ≤ t
    → t ≤ e
    → refilled l t (present t (some b)) + (e - t) * l.per_minute
      ≤ b.tokens + (e - b.updated_ms) * l.per_minute
unfolding refilled
refilled-spread l t e b p k a h = rw (present-refilled l t b p k) (grind arith)

granted-from :
    (l : Limiter) (e : ℕ) (ts : List ℕ) (b : Bucket)
    → 0 < l.per_minute
    → Kept l b
    → Rising b.updated_ms e ts
    → granted l ts (some b) * unit ≤ b.tokens + (e - b.updated_ms) * l.per_minute
unfolding after token_bucket
granted-from l e [] b p k h = unfold granted in omega arith
granted-from l e (t ∷ ts) b p k (a, h) =
    let ih = granted-from l e ts (after l t (some b)) p (after-Kept l t (some b)) h in
    let one = granted-spent l t e ts (some b) ih in
    let two = refilled-spread l t e b p k a (Rising-le t e ts h) in omega arith

times_mono : (a b k : ℕ) → a ≤ b → a * k ≤ b * k
times_mono zero b k h = omega arith
times_mono (suc a) zero k h = omega arith
times_mono (suc a) (suc b) k h = grind (arith, times_mono a b k (omega arith))

-- In a window of time, for a rate above zero and instants that do not go back, whatever bucket the key had: the
-- requests let through are at most a burst and what the rate gives in that time.
pub granted-bounded :
    (l : Limiter) (from window : ℕ) (ts : List ℕ) (b : Option Bucket)
    → 0 < l.per_minute
    → Rising from (from + window) ts
    → granted l ts b * unit ≤ l.burst * unit + window * l.per_minute
unfolding after token_bucket
granted-bounded l from window [] b p h = unfold granted in omega arith
granted-bounded l from window (t ∷ ts) b p (a, h) =
    let rest = granted-from l (from + window) ts (after l t b) p (after-Kept l t b) h in
    let one = granted-spent l t (from + window) ts b rest in
    let full = refilled-le l t (present t b) in
    let le = Rising-le t (from + window) ts h in
    let short = times_mono (from + window - t) window l.per_minute (omega arith) in omega arith
