-- ===== src/Examples/Signing.antt =====
-- The theorems on signatures, at a header made with a toy hash.
use dispute_router.Common.{ℕ, ◌*◌, ◌≡◌, refl, ◌↔◌, [], ◌∷◌, ◌++◌, some, none}
use dispute_router.Common.Bytes.{Bytes, codes, decimal}
use dispute_router.Common.Int.{ℤ, pos, ◌-ℤ◌, ◌+ℤ◌}
use dispute_router.Signing.{
  Header, parse_header, compute, instant, drift, time_sub, verify, verify_any, sign,
}
use dispute_router.Signing.Accept.{Acceptable, verify_any-accepts_iff}
use dispute_router.Examples.Sample.{second}

abbrev toy_hash : Bytes → Bytes → Bytes
toy_hash key message = key ++ message

-- The year 2024, and a timestamp in the year 2318.
abbrev clock : ℕ
clock = 63850000000 * second

abbrev far : ℤ
far = pos 11000000000

abbrev far_header : Header
far_header = record { timestamp = far; signature = compute toy_hash (codes "k") (codes "{}") far }

parse_header-sign : parse_header (sign toy_hash (codes "k") (codes "{}") far) ≡ some far_header
unfolding parse_header sign compute decimal
parse_header-sign = refl

verify_any_accepts :
    verify_any toy_hash
      (codes "new" ∷ codes "k" ∷ [])
      (codes "{}")
      (sign toy_hash (codes "k") (codes "{}") (pos 1714403200))
      clock
      (pos (300 * second))
    ≡ none
unfolding verify_any verify parse_header sign compute drift time_sub instant decimal ◌-ℤ◌ ◌+ℤ◌
verify_any_accepts = refl

verify_any-accepts_iff_example :
    (verify_any toy_hash
        (codes "new" ∷ codes "k" ∷ [])
        (codes "{}")
        (sign toy_hash (codes "k") (codes "{}") far)
        clock
        (pos (300 * second))
      ≡ none)
    ↔ Acceptable toy_hash
        (codes "new" ∷ codes "k" ∷ [])
        (codes "{}")
        (sign toy_hash (codes "k") (codes "{}") far)
        clock
        (pos (300 * second))
verify_any-accepts_iff_example =
    verify_any-accepts_iff toy_hash (codes "new" ∷ codes "k" ∷ []) (codes "{}")
      (sign toy_hash (codes "k") (codes "{}") far) clock (pos (300 * second))
