-- ===== src/Common/Text.antt =====
-- What the sources use of Go's strings and strconv, on texts as lists of bytes. White space outside ASCII is not
-- trimmed here.
use Prim.Native.Nat.{ℕ, ◌+◌, ◌-◌, ◌*◌}
use mathlib.Core.Bool.{Bool, true, false, ◌&&◌, ◌||◌}
use mathlib.Core.Option.{Option, none, some}
use mathlib.Core.List.{List, [], ◌∷◌}
use dispute_router.Common.Tests.{◌==◌, ltb, leb, if◌then◌else◌}
use dispute_router.Common.Bytes.{Bytes}
use dispute_router.Common.Int.{ℤ, pos, ◌-ℤ◌}

unfoldable pub push : ℕ → List Bytes → List Bytes
push c [] = (c ∷ []) ∷ []
push c (part ∷ parts) = (c ∷ part) ∷ parts

-- strings.Split by one byte.
unfoldable pub split : ℕ → Bytes → List Bytes
split sep [] = [] ∷ []
split sep (c ∷ s) = let rest = split sep s in if c == sep then [] ∷ rest else push c rest

unfoldable pub add_to_key : ℕ → Option (Bytes × Bytes) → Option (Bytes × Bytes)
add_to_key c none = none
add_to_key c (some (key, val)) = some (c ∷ key, val)

-- strings.Cut by one byte; `none` is found = false.
unfoldable pub cut : ℕ → Bytes → Option (Bytes × Bytes)
cut sep [] = none
cut sep (c ∷ s) = let rest = add_to_key c (cut sep s) in if c == sep then some ([], s) else rest

unfoldable pub is_space : ℕ → Bool
is_space c = c == 32 || (leb 9 c && leb c 13)

unfoldable pub trim_left : Bytes → Bytes
trim_left [] = []
trim_left (c ∷ s) = let rest = trim_left s in if is_space c then rest else c ∷ s

unfoldable pub keep : ℕ → Bytes → Bytes
keep c [] = if is_space c then [] else c ∷ []
keep c (d ∷ s) = c ∷ d ∷ s

unfoldable pub trim_right : Bytes → Bytes
trim_right [] = []
trim_right (c ∷ s) = keep c (trim_right s)

unfoldable pub trim_space : Bytes → Bytes
trim_space s = trim_right (trim_left s)

unfoldable pub parse_digits : ℕ → Bytes → Option ℕ
parse_digits n [] = some n
parse_digits n (c ∷ s) =
    let rest = parse_digits (n * 10 + (c - b'0')) s in
    if leb b'0' c && leb c b'9' then rest else none

unfoldable pub parse_ℕ : Bytes → Option ℕ
parse_ℕ [] = none
parse_ℕ (c ∷ s) = parse_digits 0 (c ∷ s)

abbrev pub two_63 : ℕ
two_63 = 9223372036854775808

unfoldable pub positive : Option ℕ → Option ℤ
positive none = none
positive (some n) = if ltb n two_63 then some (pos n) else none

unfoldable pub negative : Option ℕ → Option ℤ
negative none = none
negative (some n) = if leb n two_63 then some (pos 0 -ℤ pos n) else none

-- strconv.ParseInt(s, 10, 64).
unfoldable pub parse_int : Bytes → Option ℤ
parse_int [] = none
parse_int (c ∷ s) =
    if c == b'-'
    then negative (parse_ℕ s)
    else if c == b'+'
    then positive (parse_ℕ s)
    else positive (parse_ℕ (c ∷ s))

-- strings.HasPrefix.
unfoldable pub starts_with : Bytes → Bytes → Bool
starts_with [] t = true
starts_with (a ∷ m) [] = false
starts_with (a ∷ m) (c ∷ t) = a == c && starts_with m t
