-- ===== src/Signing/Accept.antt =====
-- internal/signing/signing.go: which deliveries Verify and VerifyAny accept.
use dispute_router.Common.{
  ℕ, ◌+◌, ◌≡◌, refl, sym, subst, ◌↔◌, Bool, true, false, List, [], ◌∷◌, Option, none, some, arith,
  ◌||◌, not, ◌≢◌,
}
use dispute_router.Common.Bytes.{Bytes, bytes_eq}
use dispute_router.Common.Int.{ℤ, pos, ◌+ℤ◌, ◌-ℤ◌, ◌≤ℤ◌, ltb_ℤ}
use dispute_router.Signing.{
  VerifyError, err_mismatch, Header, parse_header, compute, instant, time_sub, drift, verify_parsed,
  verify, after_verify, verify_each, verify_any,
}

-- The hash under one of the secrets is the header's signature.
unfoldable pub is_signed_by_one : (Bytes → Bytes → Bytes) → List Bytes → Bytes → Header → Bool
is_signed_by_one hmac [] body h = false
is_signed_by_one hmac (s ∷ secrets) body h =
    bytes_eq (compute hmac s body h.timestamp) h.signature || is_signed_by_one hmac secrets body h

unfoldable pub is_fresh : ℕ → ℤ → Header → Bool
is_fresh now tolerance h = not (ltb_ℤ tolerance (drift now h.timestamp))

-- What an accepted delivery has.
pub record Acceptable (hmac : Bytes → Bytes → Bytes) (secrets : List Bytes) (body header : Bytes)
    (now : ℕ) (tolerance : ℤ) : Type 0 where
  pub parsed : Header
  pub parses : parse_header header ≡ some parsed
  pub fresh : is_fresh now tolerance parsed ≡ true
  pub signed : is_signed_by_one hmac secrets body parsed ≡ true

signed_of_verify_each :
    (hmac : Bytes → Bytes → Bytes) (secrets : List Bytes) (body : Bytes) (now : ℕ) (tolerance : ℤ)
    (h : Header) (last : Option VerifyError) (e : VerifyError)
    → verify_each (λ s. verify_parsed hmac s body now tolerance (some h)) secrets last ≡ none
    → last ≡ some e
    → (is_fresh now tolerance h ≡ true) × (is_signed_by_one hmac secrets body h ≡ true)
unfolding verify_each after_verify verify_parsed is_fresh is_signed_by_one
signed_of_verify_each hmac [] body now tol h last e r l = absurd (ground (arith, r, l))
signed_of_verify_each hmac (s ∷ secrets) body now tol h last e r l =
    ground
      (arith, r, signed_of_verify_each hmac secrets body now tol h (some err_mismatch) err_mismatch)

verify_each_of_signed :
    (hmac : Bytes → Bytes → Bytes) (secrets : List Bytes) (body : Bytes) (now : ℕ) (tolerance : ℤ)
    (h : Header) (last : Option VerifyError)
    → is_fresh now tolerance h ≡ true
    → is_signed_by_one hmac secrets body h ≡ true
    → verify_each (λ s. verify_parsed hmac s body now tolerance (some h)) secrets last ≡ none
unfolding verify_each after_verify verify_parsed is_fresh is_signed_by_one
verify_each_of_signed hmac [] body now tol h last f m = ground (arith, m)
verify_each_of_signed hmac (s ∷ secrets) body now tol h last f m =
    ground (arith, f, m, verify_each_of_signed hmac secrets body now tol h (some err_mismatch))

any_of_Acceptable :
    (hmac : Bytes → Bytes → Bytes) (secrets : List Bytes) (body header : Bytes) (now : ℕ)
    (tolerance : ℤ)
    → Acceptable hmac secrets body header now tolerance
    → verify_any hmac secrets body header now tolerance ≡ none
unfolding verify_any verify is_signed_by_one
any_of_Acceptable hmac [] body header now tol a = absurd (ground (arith, a.signed))
any_of_Acceptable hmac (s ∷ secrets) body header now tol a =
    subst
      (λ p. verify_each (λ key. verify_parsed hmac key body now tol p) (s ∷ secrets) none ≡ none)
      (sym a.parses)
      (verify_each_of_signed hmac (s ∷ secrets) body now tol a.parsed none a.fresh a.signed)

malformed-verify_each :
    (hmac : Bytes → Bytes → Bytes) (s : Bytes) (secrets : List Bytes) (body : Bytes) (now : ℕ)
    (tolerance : ℤ)
    → verify_each (λ s. verify_parsed hmac s body now tolerance none) (s ∷ secrets) none ≢ none
unfolding verify_each after_verify verify_parsed
malformed-verify_each hmac s secrets body now tol r = ground (arith, r)

signed_of_any :
    (hmac : Bytes → Bytes → Bytes) (s : Bytes) (secrets : List Bytes) (body header : Bytes)
    (now : ℕ) (tolerance : ℤ) (parsed : Option Header)
    → parse_header header ≡ parsed
    → verify_each (λ s. verify_parsed hmac s body now tolerance parsed) (s ∷ secrets) none ≡ none
    → Acceptable hmac (s ∷ secrets) body header now tolerance
unfolding verify_each after_verify verify_parsed
signed_of_any hmac s secrets body header now tol none e r = absurd (ground (arith, r))
signed_of_any hmac s secrets body header now tol (some h) e r =
    let (f, m) =
      signed_of_verify_each hmac (s ∷ secrets) body now tol h (some err_mismatch) err_mismatch r
        refl in
    record { parsed = h; parses = e; fresh = f; signed = m }

Acceptable-verify_any :
    (hmac : Bytes → Bytes → Bytes) (secrets : List Bytes) (body header : Bytes) (now : ℕ)
    (tolerance : ℤ)
    → verify_any hmac secrets body header now tolerance ≡ none
    → Acceptable hmac secrets body header now tolerance
unfolding verify_any verify
Acceptable-verify_any hmac [] body header now tol r = absurd (ground (arith, r))
Acceptable-verify_any hmac (s ∷ secrets) body header now tol r =
    signed_of_any hmac s secrets body header now tol (parse_header header) refl r

-- VerifyAny accepts a delivery if and only if its header parses, its timestamp passes the check against
-- the tolerance, and the hash under at least one of the secrets is the signature: neither the order of
-- the secrets nor the loop's early return changes the answer.
pub verify_any-accepts_iff :
    (hmac : Bytes → Bytes → Bytes) (secrets : List Bytes) (body header : Bytes) (now : ℕ)
    (tolerance : ℤ)
    → (verify_any hmac secrets body header now tolerance ≡ none)
      ↔ Acceptable hmac secrets body header now tolerance
verify_any-accepts_iff hmac secrets body header now tol = (
  Acceptable-verify_any hmac secrets body header now tol,
  any_of_Acceptable hmac secrets body header now tol,
)

far_future_is_fresh :
    (now : ℕ) (tolerance : ℤ) (h : Header)
    → pos 0 ≤ℤ tolerance
    → pos (now + 9223372036854775808) ≤ℤ instant h.timestamp
    → is_fresh now tolerance h ≡ true
unfolding is_fresh drift time_sub ◌-ℤ◌ ◌+ℤ◌
far_future_is_fresh now tol h t f = ground arith

verify_parsed-accepts :
    (hmac : Bytes → Bytes → Bytes) (secret body : Bytes) (now : ℕ) (tolerance : ℤ) (h : Header)
    → is_fresh now tolerance h ≡ true
    → bytes_eq (compute hmac secret body h.timestamp) h.signature ≡ true
    → verify_parsed hmac secret body now tolerance (some h) ≡ none
unfolding verify_parsed is_fresh
verify_parsed-accepts hmac secret body now tol h f m = ground (arith, f, m)

-- Verify accepts a signed header whose timestamp lies 2^63 nanoseconds or more after the clock, about 292
-- years, for any tolerance of zero or more: the difference stops at the least Duration, and turning its
-- sign gives the same negative number again.
pub far_future-verify :
    (hmac : Bytes → Bytes → Bytes) (secret body header : Bytes) (now : ℕ) (tolerance : ℤ)
    (h : Header)
    → parse_header header ≡ some h
    → bytes_eq (compute hmac secret body h.timestamp) h.signature ≡ true
    → pos 0 ≤ℤ tolerance
    → pos (now + 9223372036854775808) ≤ℤ instant h.timestamp
    → verify hmac secret body header now tolerance ≡ none
unfolding verify
far_future-verify hmac secret body header now tol h e m t f =
    subst (λ p. verify_parsed hmac secret body now tol p ≡ none) (sym e)
      (verify_parsed-accepts hmac secret body now tol h (far_future_is_fresh now tol h t f) m)

-- A timestamp less than 2^63 nanoseconds from the clock passes the check if and only if it lies within the
-- tolerance, before the clock or after it.
pub is_fresh_iff :
    (now : ℕ) (tolerance : ℤ) (h : Header)
    → (pos now -ℤ instant h.timestamp) ≤ℤ pos 9223372036854775807
    → (instant h.timestamp -ℤ pos now) ≤ℤ pos 9223372036854775807
    → (is_fresh now tolerance h ≡ true) ↔ (
        ((pos now -ℤ instant h.timestamp) ≤ℤ tolerance)
        × ((instant h.timestamp -ℤ pos now) ≤ℤ tolerance))
unfolding is_fresh drift time_sub ◌-ℤ◌ ◌+ℤ◌
is_fresh_iff now tol h a b = (λ k. ground arith, λ k. ground arith)
