-- ===== src/Ingest/Limiter/Expiry.antt =====
-- internal/ingest/ratelimit.go: a bucket that Redis forgets is one that was full again.
use dispute_router.Common.{
  ℕ, ◌+◌, ◌-◌, ◌*◌, ◌/◌, ◌≤◌, ◌<◌, ◌≡◌, refl, inl, inr, some, ltb, arith, Bool-cases,
}
use dispute_router.Ingest.Limiter.{Limiter, Bucket, unit, present, refilled, lifetime}

div_up-covers : (n d : ℕ) → 0 < d → n ≤ (n + (d - 1)) / d * d
div_up-covers n d h = grind arith

-- The tokens that come back in a bucket's lifetime fill it.
lifetime-covers : (l : Limiter) → 0 < l.per_minute → l.burst * unit ≤ lifetime l * l.per_minute
unfolding lifetime
lifetime-covers l h = grind (arith, div_up-covers (l.burst * unit) l.per_minute h)

-- A bucket that its last request left at a time by one clock is one that is gone only when full.
abbrev pub Kept : Limiter → Bucket → Type 0
Kept l b = b.expires_ms ≡ b.updated_ms + lifetime l

-- A bucket that expires at the time that the script sets answers like one that Redis never removes, at every
-- later request whose instant its clock and Redis's agree on, for a rate above zero.
pub present-refilled :
    (l : Limiter) (now : ℕ) (b : Bucket)
    → 0 < l.per_minute
    → Kept l b
    → refilled l now (present now (some b)) ≡ refilled l now (some b)
unfolding refilled present
present-refilled l now b h k = elim (Bool-cases (ltb now b.expires_ms)) [
  | inl e ↦ rw e refl
  | inr e ↦
      let gone : lifetime l ≤ now - b.updated_ms = ground arith in
      let full : l.burst * unit ≤ (now - b.updated_ms) * l.per_minute =
        grind (arith, lifetime-covers l h) in
      rw e (ground arith)
]
