-- ===== src/Signing.antt =====
-- internal/signing/signing.go: the signature header, its tolerance window, and the check against each of
-- a merchant's secrets. The keyed hash (HMAC-SHA256) is an argument; text is a list of bytes. White space
-- outside ASCII is not trimmed here, and an error is its sentinel, without the text around it.
pub mod Accept
use dispute_router.Common.{
  ℕ, ◌+◌, ◌-◌, ◌*◌, ◌/◌, ◌%◌, Bool, true, false, ◌&&◌, ◌||◌, List, [], ◌∷◌, ◌++◌, Option, none,
  some, leb, ltb, ◌==◌, if◌then◌else◌,
}
use dispute_router.Common.Bytes.{Bytes, codes, bytes_eq, decimal}
use dispute_router.Common.Text.{
  push, split, add_to_key, cut, is_space, trim_left, keep, trim_right, trim_space, parse_digits,
  parse_ℕ, positive, negative, two_63, parse_int,
}
use dispute_router.Common.Int.{ℤ, pos, negsuc, ◌+ℤ◌, ◌-ℤ◌, ltb_ℤ}

pub data VerifyError : Type 0 where
  err_malformed_header err_stale_timestamp err_mismatch : VerifyError

-- `timestamp` is in Unix seconds.
pub record Header : Type 0 where
  pub timestamp : ℤ
  pub signature : Bytes

-- The header while it is read: an absent field is `gotTS` or `gotSig` false.
record Parsed : Type 0 where
  timestamp : Option ℤ
  signature : Option Bytes

hex_digit : ℕ → Option ℕ
hex_digit c =
    if leb b'0' c && leb c b'9'
    then some (c - b'0')
    else if leb b'a' c && leb c b'f'
    then some (c - b'a' + 10)
    else if leb b'A' c && leb c b'F'
    then some (c - b'A' + 10)
    else none

add_byte : Option ℕ → Option ℕ → Option Bytes → Option Bytes
add_byte (some a) (some b) (some s) = some ((a * 16 + b) ∷ s)
add_byte a b s = none

-- hex.DecodeString.
hex_decode : Bytes → Option Bytes
hex_decode [] = some []
hex_decode (a ∷ []) = none
hex_decode (a ∷ b ∷ s) = add_byte (hex_digit a) (hex_digit b) (hex_decode s)

set_timestamp : Parsed → Option ℤ → Option Parsed
set_timestamp p none = none
set_timestamp p (some seconds) = some (record p { timestamp = some seconds })

set_signature : Parsed → Option Bytes → Option Parsed
set_signature p none = none
set_signature p (some raw) = some (record p { signature = some raw })

-- One round of ParseHeader's loop.
read_part : Parsed → Option (Bytes × Bytes) → Option Parsed
unfolding bytes_eq
read_part p none = some p
read_part p (some (key, val)) =
    if bytes_eq key (codes "t")
    then set_timestamp p (parse_int val)
    else if bytes_eq key (codes "v1")
    then set_signature p (hex_decode val)
    else some p

next_part : (Parsed → Option Parsed) → Option Parsed → Option Parsed
next_part again none = none
next_part again (some p) = again p

read_parts : List Bytes → Parsed → Option Parsed
read_parts [] p = some p
read_parts (part ∷ parts) p =
    next_part (read_parts parts) (read_part p (cut b'=' (trim_space part)))

both : Option ℤ → Option Bytes → Option Header
both (some t) (some s) = some (record { timestamp = t; signature = s })
both t s = none

finish : Option Parsed → Option Header
finish none = none
finish (some p) = both p.timestamp p.signature

-- `ParseHeader`; `none` is ErrMalformedHeader.
unfoldable pub parse_header : Bytes → Option Header
unfolding finish both read_parts next_part read_part set_timestamp set_signature cut add_to_key
    trim_space trim_left trim_right keep is_space split push parse_int positive negative parse_ℕ
    parse_digits hex_decode hex_digit add_byte
parse_header value =
    finish (read_parts (split b',' value) (record { timestamp = none; signature = none }))

-- strconv.FormatInt(n, 10).
format_int : ℤ → Bytes
format_int (pos n) = decimal n
format_int (negsuc n) = b'-' ∷ decimal (n + 1)

-- `Compute`: the hash of "<unix timestamp>.<raw body>".
unfoldable pub compute : (Bytes → Bytes → Bytes) → Bytes → Bytes → ℤ → Bytes
unfolding format_int
compute hmac secret body ts = hmac secret (format_int ts ++ (b'.' ∷ body))

abbrev max_int64 : ℤ
max_int64 = pos 9223372036854775807

abbrev min_int64 : ℤ
min_int64 = negsuc 9223372036854775807

-- A value that is less than 2^63 past the ends of int64, as int64 keeps it.
wrap_int64 : ℤ → ℤ
wrap_int64 z =
    if ltb_ℤ max_int64 z
    then z -ℤ pos 18446744073709551616
    else if ltb_ℤ z min_int64
    then z +ℤ pos 18446744073709551616
    else z

-- Seconds in nanoseconds.
nanoseconds : ℤ → ℤ
nanoseconds (pos n) = pos (n * 1000000000)
nanoseconds (negsuc n) = pos 0 -ℤ pos ((n + 1) * 1000000000)

-- time.Unix(seconds, 0), in nanoseconds since Go's zero time; Go keeps the seconds as an int64.
unfoldable pub instant : ℤ → ℤ
unfolding nanoseconds wrap_int64
instant seconds = nanoseconds (wrap_int64 (seconds +ℤ pos 62135596800))

-- Time.Sub, which stops at the ends of a Duration.
unfoldable pub time_sub : ℤ → ℤ → ℤ
time_sub t u =
    let d = t -ℤ u in
    if ltb_ℤ max_int64 d then max_int64 else if ltb_ℤ d min_int64 then min_int64 else d

-- `drift` of Verify, with its turn of the sign on int64.
unfoldable pub drift : ℕ → ℤ → ℤ
unfolding wrap_int64
drift now ts =
    let d = time_sub (pos now) (instant ts) in
    if ltb_ℤ d (pos 0) then wrap_int64 (pos 0 -ℤ d) else d

-- Verify after ParseHeader.
pub verify_parsed :
    (Bytes → Bytes → Bytes) → Bytes → Bytes → ℕ → ℤ → Option Header → Option VerifyError
verify_parsed hmac secret body now tolerance none = some err_malformed_header
verify_parsed hmac secret body now tolerance (some h) =
    if ltb_ℤ tolerance (drift now h.timestamp)
    then some err_stale_timestamp
    else if bytes_eq (compute hmac secret body h.timestamp) h.signature
    then none
    else some err_mismatch

-- `Verify`; `none` is success.
unfoldable pub verify : (Bytes → Bytes → Bytes) → Bytes → Bytes → Bytes → ℕ → ℤ → Option VerifyError
unfolding verify_parsed
verify hmac secret body header now tolerance =
    verify_parsed hmac secret body now tolerance (parse_header header)

-- What VerifyAny's loop does with one secret's result; `again` is its next round.
pub after_verify : Option VerifyError → Option VerifyError → Option VerifyError
after_verify none again = none
after_verify (some err_mismatch) again = again
after_verify (some e) again = some e

-- The loop of VerifyAny; `last` is lastErr.
pub verify_each :
    (Bytes → Option VerifyError) → List Bytes → Option VerifyError → Option VerifyError
unfolding after_verify
verify_each check [] last = last
verify_each check (secret ∷ secrets) last =
    after_verify (check secret) (verify_each check secrets (check secret))

-- `VerifyAny`.
unfoldable pub verify_any :
    (Bytes → Bytes → Bytes) → List Bytes → Bytes → Bytes → ℕ → ℤ → Option VerifyError
unfolding verify_each
verify_any hmac [] body header now tolerance = some err_mismatch
verify_any hmac (s ∷ secrets) body header now tolerance =
    verify_each (λ secret. verify hmac secret body header now tolerance) (s ∷ secrets) none

hex_char : ℕ → ℕ
hex_char n = if ltb n 10 then b'0' + n else b'a' + (n - 10)

-- hex.EncodeToString.
hex_encode : Bytes → Bytes
hex_encode [] = []
hex_encode (c ∷ s) = hex_char (c / 16) ∷ hex_char (c % 16) ∷ hex_encode s

-- `Sign`.
unfoldable pub sign : (Bytes → Bytes → Bytes) → Bytes → Bytes → ℤ → Bytes
unfolding format_int hex_encode hex_char
sign hmac secret body ts =
    codes "t=" ++ (format_int ts ++ (codes ",v1=" ++ hex_encode (compute hmac secret body ts)))
