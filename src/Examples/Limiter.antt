-- ===== src/Examples/Limiter.antt =====
-- The theorems on the rate limiter, at a small one.
use dispute_router.Common.{◌+◌, ◌*◌, ◌≤◌, ◌≡◌, refl, [], ◌∷◌, none, some, arith}
use dispute_router.Ingest.Limiter.{
  Limiter, Bucket, unit, present, refilled, lifetime, is_allowed, taken, token_bucket, granted,
}
use dispute_router.Ingest.Limiter.Expiry.{Kept, present-refilled}
use dispute_router.Ingest.Limiter.Window.{granted-bounded}

-- 60 a minute, two at once.
abbrev limiter : Limiter
limiter = record { per_minute = 60; burst = 2 }

abbrev drained : Bucket
drained = record { tokens = 0; updated_ms = 1000; expires_ms = 63000 }

-- Two at once, one after a second, one too many.
granted_4 : granted limiter (1000 ∷ 1000 ∷ 2000 ∷ 2000 ∷ []) none ≡ 3
unfolding granted token_bucket taken is_allowed refilled present lifetime
granted_4 = refl

-- A clock that is behind takes the time of the last request back, and the interval is counted again: four
-- requests in a second and a half.
granted_skewed : granted limiter (2000 ∷ 2000 ∷ 3000 ∷ 2000 ∷ 3000 ∷ []) none ≡ 4
unfolding granted token_bucket taken is_allowed refilled present lifetime
granted_skewed = refl

drained-Kept : Kept limiter drained
unfolding lifetime
drained-Kept = refl

granted-bounded_example :
    granted limiter (1000 ∷ 1000 ∷ 2000 ∷ 2000 ∷ []) none * unit ≤ 2 * unit + 1000 * 60
granted-bounded_example =
    granted-bounded limiter 1000 1000 (1000 ∷ 1000 ∷ 2000 ∷ 2000 ∷ []) none (omega arith)
      (omega arith)

present-refilled_example :
    refilled limiter 70000 (present 70000 (some drained)) ≡ refilled limiter 70000 (some drained)
present-refilled_example = present-refilled limiter 70000 drained (omega arith) drained-Kept
