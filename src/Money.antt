-- ===== src/Money.antt =====
-- internal/money/format.go: the text of an amount of minor units. Text is a list of bytes; upper-casing is
-- on ASCII, and the least int64, which has no positive counterpart, is not modelled.
pub mod Grouping
use dispute_router.Common.{
  ℕ, suc, ◌+◌, ◌-◌, ◌/◌, ◌%◌, Bool, true, false, ◌&&◌, ◌||◌, List, [], ◌∷◌, ◌++◌, map, length, leb,
  ltb, ◌==◌, if◌then◌else◌,
}
use dispute_router.Common.Bytes.{Bytes, codes, bytes_eq, decimal}
use dispute_router.Common.Int.{ℤ, pos, negsuc}

-- strings.ToUpper.
unfoldable pub to_upper : Bytes → Bytes
to_upper s = map (λ c. if leb b'a' c && leb c b'z' then c - 32 else c) s

-- `Digits`.
unfoldable pub digits : Bytes → ℕ
unfolding bytes_eq
digits currency =
    let code = to_upper currency in
    if bytes_eq code (codes "JPY") || bytes_eq code (codes "KRW") || bytes_eq code (codes "ISK")
    then 0
    else 2

-- The loop of `group`: a comma before a digit that is not the first, when a multiple of three is left.
unfoldable pub insert_commas : Bool → Bytes → Bytes
insert_commas first [] = []
insert_commas first (r ∷ rest) =
    let more = r ∷ insert_commas false rest in
    if first then more else if suc (length rest) % 3 == 0 then b',' ∷ more else more

-- `group`.
unfoldable pub group : ℤ → Bytes
group (pos n) = insert_commas true (decimal n)
group (negsuc n) = b'-' ∷ insert_commas true (decimal (suc n))

-- `/` and `%` of Go by 100: the quotient is cut towards zero, and the sign of the rest is dropped.
abbrev pub whole : ℤ → ℤ
whole (pos n) = pos (n / 100)
whole (negsuc n) = minus (suc n / 100)
  where
    minus : ℕ → ℤ
    minus ℕ.zero = pos 0
    minus (suc m) = negsuc m

abbrev pub frac : ℤ → ℕ
frac (pos n) = n % 100
frac (negsuc n) = suc n % 100

-- `%02d`.
abbrev two_digits : ℕ → Bytes
two_digits n = (b'0' + n / 10) ∷ (b'0' + n % 10) ∷ []

-- `FormatMinor`.
unfoldable pub format_minor : ℤ → Bytes → Bytes
format_minor amount_minor currency =
    if digits currency == 0
    then group amount_minor ++ (b' ' ∷ to_upper currency)
    else group (whole amount_minor)
      ++ (b'.' ∷ (two_digits (frac amount_minor) ++ (b' ' ∷ to_upper currency)))
