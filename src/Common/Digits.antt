-- ===== src/Common/Digits.antt =====
-- The decimal digits of a number, read back.
use Prim.Native.Nat.{ℕ, zero, suc, ◌+◌, ◌-◌, ◌*◌, ◌/◌, ◌%◌, ◌<◌}
use mathlib.Core.Bool.{false, ◌&&◌}
use mathlib.Core.List.{[], ◌∷◌, ◌++◌}
use mathlib.Core.Path.{◌≡◌, refl}
use native.Mathlib.Omega.{arith}
use dispute_router.Common.Tests.{leb, if◌then◌else◌}
use dispute_router.Common.Bytes.{Bytes, decimal, digits_from}

-- Reads the digits in front of a text: their value, and the rest.
unfoldable pub read : ℕ → Bytes → ℕ × Bytes
read acc [] = (acc, [])
read acc (c ∷ s) =
    let rest = read (acc * 10 + (c - b'0')) s in
    if leb b'0' c && leb c b'9' then rest else (acc, c ∷ s)

read-digit : (acc d : ℕ) (s : Bytes) → d < 10 → read acc ((b'0' + d) ∷ s) ≡ read (acc * 10 + d) s
unfolding read
read-digit acc d s h = ground arith

read-stop :
    (acc c : ℕ) (s : Bytes) → (leb b'0' c && leb c b'9') ≡ false → read acc (c ∷ s) ≡ (acc, c ∷ s)
unfolding read
read-stop acc c s h = rw h refl

read-digits_from : (f n : ℕ) (out : Bytes) → n < f → read 0 (digits_from f n out) ≡ read n out
unfolding digits_from
read-digits_from zero n out h = elim h [ ]
read-digits_from (suc f) n out h = ground (
  arith,
  read-digit 0 n out,
  read-digit (n / 10) (n % 10) out,
  read-digits_from f (n / 10) ((b'0' + n % 10) ∷ out),
)

digits_from-append :
    (f n : ℕ) (out tail : Bytes) → digits_from f n out ++ tail ≡ digits_from f n (out ++ tail)
unfolding digits_from
digits_from-append zero n out tail = refl
digits_from-append (suc f) n out tail =
    ground (arith, digits_from-append f (n / 10) ((b'0' + n % 10) ∷ out) tail)

-- The digits of a number, with something else behind them, read as that number.
pub read-decimal :
    (n c : ℕ) (tail : Bytes)
    → (leb b'0' c && leb c b'9') ≡ false
    → read 0 (decimal n ++ c ∷ tail) ≡ (n, c ∷ tail)
unfolding decimal read
read-decimal n c tail h =
    rw (digits_from-append (suc n) n [] (c ∷ tail))
      (rw (read-digits_from (suc n) n (c ∷ tail) (omega arith)) (rw (read-stop n c tail h) refl))

-- The digits of a number alone.
pub read-decimal_end : (n : ℕ) → read 0 (decimal n) ≡ (n, [])
unfolding decimal read
read-decimal_end n = read-digits_from (suc n) n [] (omega arith)
