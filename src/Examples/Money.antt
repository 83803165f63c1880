-- ===== src/Examples/Money.antt =====
-- The theorems on amounts in words, at small amounts.
use dispute_router.Common.{◌≡◌, refl, true, ◌++◌, arith}
use dispute_router.Common.Bytes.{codes, decimal, bytes_eq}
use dispute_router.Common.Int.{pos}
use dispute_router.Money.{to_upper, digits, insert_commas, group, format_minor}
use dispute_router.Money.Grouping.{group-in_threes}

format_minor_dollars : format_minor (pos 123456789) (codes "usd") ≡ codes "1,234,567.89 USD"
unfolding format_minor digits group insert_commas to_upper decimal bytes_eq
format_minor_dollars = refl

format_minor_yen : format_minor (pos 5000) (codes "JPY") ≡ codes "5,000 JPY"
unfolding format_minor digits group insert_commas to_upper decimal bytes_eq
format_minor_yen = refl

group-in_threes_example : insert_commas true (codes "5" ++ codes "000123") ≡ codes "5,000,123"
group-in_threes_example =
    group-in_threes (codes "5") (codes "000123") (omega arith) (omega arith) (omega arith)
