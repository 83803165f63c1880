-- ===== src/Llm/Pricing.antt =====
-- internal/llm/pricing.go: what a call costs, in micro-dollars. Rates and counts are not negative and their
-- products fit an int64. The multipliers are floats in the code; in rates below 2 ^ 53 the
-- truncated product by 1.25 is a division by 4 of five times the rate, that by 0.10 a division by 10.
use dispute_router.Common.{ℕ, ◌+◌, ◌*◌, ◌/◌, ◌≤◌, ◌≡◌, arith, ltb, if◌then◌else◌}
use dispute_router.Llm.{Usage, add_usage, no_usage}

-- `Pricing`.
pub record Pricing : Type 0 where
  pub input_rate : ℕ
  pub output_rate : ℕ
  pub cache_write_rate : ℕ
  pub cache_read_rate : ℕ

abbrev pub per_mtok : ℕ
per_mtok = 1000000

unfoldable pub rate : ℕ → ℕ → ℕ
rate configured derived = if ltb 0 configured then configured else derived

-- `Cost`.
unfoldable pub cost : Pricing → Usage → ℕ
unfolding rate
cost p u =
    u.input_tokens * p.input_rate / per_mtok
    + u.output_tokens * p.output_rate / per_mtok
    + u.cache_creation_input_tokens * rate p.cache_write_rate (p.input_rate * 5 / 4) / per_mtok
    + u.cache_read_input_tokens * rate p.cache_read_rate (p.input_rate / 10) / per_mtok

part-add :
    (a b r : ℕ)
    → (a * r / per_mtok + b * r / per_mtok ≤ (a + b) * r / per_mtok)
      × ((a + b) * r / per_mtok ≤ a * r / per_mtok + b * r / per_mtok + 1)
part-add a b r = grind arith

-- Two usages together cost at least what they cost apart, and at most four micro-dollars more: one for each
-- kind of token, whose price is rounded down.
pub cost-add_usage :
    (p : Pricing) (u v : Usage)
    → (cost p u + cost p v ≤ cost p (add_usage u v))
      × (cost p (add_usage u v) ≤ cost p u + cost p v + 4)
unfolding cost add_usage
cost-add_usage p u v =
    let i = part-add u.input_tokens v.input_tokens p.input_rate in
    let o = part-add u.output_tokens v.output_tokens p.output_rate in
    let w =
      part-add u.cache_creation_input_tokens v.cache_creation_input_tokens
        (rate p.cache_write_rate (p.input_rate * 5 / 4)) in
    let r =
      part-add u.cache_read_input_tokens v.cache_read_input_tokens
        (rate p.cache_read_rate (p.input_rate / 10)) in
    omega arith

pub cost-no_usage : (p : Pricing) → cost p no_usage ≡ 0
unfolding cost
cost-no_usage p = omega arith
