-- ===== src/Ingest/Event.antt =====
-- internal/ingest/event.go: the two messages once they are decoded, and their validation. The claim is a
-- list of bytes; an instant is in nanoseconds since Go's zero time.
pub mod Constraints
use dispute_router.Common.{
  ℕ, Bool, true, false, not, ◌&&◌, ◌||◌, List, [], ◌∷◌, Option, none, some, String, str_eq, length,
  ltb, leb, ◌==◌, if◌then◌else◌,
}
use dispute_router.Common.Bytes.{Bytes, codes}
use dispute_router.Common.Int.{ℤ, pos, negsuc, leb_ℤ}

pub record DisputeData : Type 0 where
  pub dispute_id : String
  pub merchant_id : String
  pub transaction_id : String
  pub kind : String
  pub card_network : String
  pub reason_code : String
  pub amount_minor : ℤ
  pub currency : String
  pub opened_at : ℕ
  pub respond_by : ℕ
  pub cardholder_claim : Bytes

pub record DisputeWebhook : Type 0 where
  pub id : String
  pub event_type : String
  pub created_at : ℕ
  pub event_data : DisputeData

-- ErrInvalidEvent, with the field that is at fault.
pub data InvalidEvent : Type 0 where
  id_required unsupported_type dispute_id_required merchant_id_required transaction_id_required :
      InvalidEvent
  unknown_kind unknown_card_network reason_code_required amount_not_positive bad_currency :
      InvalidEvent
  opened_at_required respond_by_required respond_by_before_opened respond_by_past : InvalidEvent
  claim_too_long claim_not_utf8 bad_outcome decided_at_required : InvalidEvent

abbrev pub max_claim_bytes : ℕ
max_claim_bytes = 4000

unfoldable pub is_valid_kind : String → Bool
is_valid_kind kind = str_eq kind "alert" || str_eq kind "chargeback"

unfoldable pub is_valid_network : String → Bool
is_valid_network network =
    str_eq network "visa"
    || str_eq network "mastercard"
    || str_eq network "amex"
    || str_eq network "discover"

abbrev is_capital : ℕ → Bool
is_capital r = leb b'A' r && leb r b'Z'

-- The loop of isCurrencyCode.
unfoldable pub are_capitals : Bytes → Bool
are_capitals [] = true
are_capitals (r ∷ code) = is_capital r && are_capitals code

unfoldable pub is_currency_code : Bytes → Bool
is_currency_code code = length code == 3 && are_capitals code

abbrev between : ℕ → ℕ → ℕ → Bool
between low high c = leb low c && leb c high

abbrev is_tail : ℕ → Bool
is_tail = between 128 191

-- The first two bytes of a sequence of three, and of four.
abbrev starts_three : ℕ → ℕ → Bool
starts_three a b =
    (a == 224 && between 160 191 b)
    || (a == 237 && between 128 159 b)
    || ((between 225 236 a || between 238 239 a) && is_tail b)

abbrev starts_four : ℕ → ℕ → Bool
starts_four a b =
    (a == 240 && between 144 191 b)
    || (between 241 243 a && is_tail b)
    || (a == 244 && between 128 143 b)

-- utf8.ValidString.
unfoldable pub is_valid_utf8 : Bytes → Bool
is_valid_utf8 [] = true
is_valid_utf8 (a ∷ []) = ltb a 128
is_valid_utf8 (a ∷ b ∷ []) =
    let one = is_valid_utf8 (b ∷ []) in (ltb a 128 && one) || (between 194 223 a && is_tail b)
is_valid_utf8 (a ∷ b ∷ c ∷ []) =
    let one = is_valid_utf8 (b ∷ c ∷ []) in
    let two = is_valid_utf8 (c ∷ []) in
    (ltb a 128 && one) || (between 194 223 a && is_tail b && two) || (starts_three a b && is_tail c)
is_valid_utf8 (a ∷ b ∷ c ∷ d ∷ s) =
    let one = is_valid_utf8 (b ∷ c ∷ d ∷ s) in
    let two = is_valid_utf8 (c ∷ d ∷ s) in
    let three = is_valid_utf8 (d ∷ s) in
    let four = is_valid_utf8 s in
    (ltb a 128 && one)
    || (between 194 223 a && is_tail b && two)
    || (starts_three a b && is_tail c && three)
    || (starts_four a b && is_tail c && is_tail d && four)

-- The rules on the amount, the times and the claim, after those on the names.
unfoldable pub validate_values : DisputeData → ℕ → Option InvalidEvent
validate_values d now =
    if leb_ℤ d.amount_minor (pos 0)
    then some amount_not_positive
    else if not (is_currency_code (codes d.currency))
    then some bad_currency
    else if d.opened_at == 0
    then some opened_at_required
    else if d.respond_by == 0
    then some respond_by_required
    else if not (ltb d.opened_at d.respond_by)
    then some respond_by_before_opened
    else if ltb d.respond_by now
    then some respond_by_past
    else if ltb max_claim_bytes (length d.cardholder_claim)
    then some claim_too_long
    else if not (is_valid_utf8 d.cardholder_claim)
    then some claim_not_utf8
    else none

-- `DisputeWebhook.Validate`; `none` is nil.
unfoldable pub validate : DisputeWebhook → ℕ → Option InvalidEvent
validate e now =
    if str_eq e.id ""
    then some id_required
    else if not (str_eq e.event_type "dispute.opened")
    then some unsupported_type
    else if str_eq e.event_data.dispute_id ""
    then some dispute_id_required
    else if str_eq e.event_data.merchant_id ""
    then some merchant_id_required
    else if str_eq e.event_data.transaction_id ""
    then some transaction_id_required
    else if not (is_valid_kind e.event_data.kind)
    then some unknown_kind
    else if not (is_valid_network e.event_data.card_network)
    then some unknown_card_network
    else if str_eq e.event_data.reason_code ""
    then some reason_code_required
    else validate_values e.event_data now

pub record RulingData : Type 0 where
  pub dispute_id : String
  pub merchant_id : String
  pub outcome : String
  pub decided_at : ℕ
  pub note : String

pub record RulingWebhook : Type 0 where
  pub id : String
  pub event_type : String
  pub created_at : ℕ
  pub event_data : RulingData

-- `RulingWebhook.Validate`.
unfoldable pub validate_ruling : RulingWebhook → Option InvalidEvent
validate_ruling e =
    if str_eq e.id ""
    then some id_required
    else if not (str_eq e.event_type "dispute.resolved")
    then some unsupported_type
    else if str_eq e.event_data.dispute_id ""
    then some dispute_id_required
    else if str_eq e.event_data.merchant_id ""
    then some merchant_id_required
    else if not (str_eq e.event_data.outcome "won" || str_eq e.event_data.outcome "lost")
    then some bad_outcome
    else if e.event_data.decided_at == 0
    then some decided_at_required
    else none
