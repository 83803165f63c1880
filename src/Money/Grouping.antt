-- ===== src/Money/Grouping.antt =====
-- internal/money/format.go: where the commas go, and what the sign loses.
use dispute_router.Common.{
  ℕ, suc, ◌<◌, ◌≤◌, ◌≡◌, refl, true, false, [], ◌∷◌, ◌++◌, ◌==◌, ◌%◌, arith, length,
}
use dispute_router.Common.Bytes.{Bytes}
use dispute_router.Common.Int.{pos, negsuc}
use dispute_router.Money.{digits, insert_commas, whole, format_minor}

-- A comma before each three bytes.
abbrev pub in_threes : Bytes → Bytes
in_threes [] = []
in_threes (a ∷ []) = []
in_threes (a ∷ b ∷ []) = []
in_threes (a ∷ b ∷ c ∷ rest) = b',' ∷ a ∷ b ∷ c ∷ in_threes rest

insert_commas-in_threes :
    (text : Bytes) → length text % 3 ≡ 0 → insert_commas false text ≡ in_threes text
unfolding insert_commas
insert_commas-in_threes [] h = refl
insert_commas-in_threes (a ∷ []) h = absurd (ground arith)
insert_commas-in_threes (a ∷ b ∷ []) h = absurd (ground arith)
insert_commas-in_threes (a ∷ b ∷ c ∷ rest) h =
    let m : length rest % 3 ≡ 0 = omega arith in
    let x : (suc (suc (suc (length rest))) % 3 == 0) ≡ true = ground arith in
    let y : (suc (suc (length rest)) % 3 == 0) ≡ false = ground arith in
    let z : (suc (length rest) % 3 == 0) ≡ false = ground arith in
    rw (x, y, z, insert_commas-in_threes rest m) refl

-- Grouping leaves the one to three bytes at the head as they are, and puts one comma before each three of the rest, and none
-- anywhere else.
pub group-in_threes :
    (head rest : Bytes)
    → 1 ≤ length head
    → length head ≤ 3
    → length rest % 3 ≡ 0
    → insert_commas true (head ++ rest) ≡ head ++ in_threes rest
unfolding insert_commas
group-in_threes [] rest h k m = absurd (omega arith)
group-in_threes (a ∷ []) rest h k m = rw (insert_commas-in_threes rest m) refl
group-in_threes (a ∷ b ∷ []) rest h k m =
    let z : (suc (length rest) % 3 == 0) ≡ false = ground arith in
    rw (z, insert_commas-in_threes rest m) refl
group-in_threes (a ∷ b ∷ c ∷ []) rest h k m =
    let y : (suc (suc (length rest)) % 3 == 0) ≡ false = ground arith in
    let z : (suc (length rest) % 3 == 0) ≡ false = ground arith in
    rw (y, z, insert_commas-in_threes rest m) refl
group-in_threes (a ∷ b ∷ c ∷ d ∷ head) rest h k m = absurd (omega arith)

whole_of_small : (n : ℕ) → n < 99 → whole (negsuc n) ≡ pos 0
whole_of_small n h = ground arith

-- A negative amount of less than one whole unit, in a currency with two minor digits, is written like the
-- positive amount of the same size: the sign is lost.
pub negsuc-format_minor :
    (n : ℕ) (currency : Bytes)
    → n < 99
    → digits currency ≡ 2
    → format_minor (negsuc n) currency ≡ format_minor (pos (suc n)) currency
unfolding format_minor
negsuc-format_minor n currency h e = ground (arith, e)
