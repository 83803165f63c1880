-- ===== src/Ingest/Event/Constraints.antt =====
-- internal/ingest/event.go: the events that pass validation, and the constraints of the disputes table on them.
use dispute_router.Common.{
  ℕ, ◌<◌, ◌≤◌, ◌≡◌, refl, ◌⊎◌, inl, inr, Bool, true, false, ◌||◌, [], ◌∷◌, none, arith, String,
  str_eq, eq_iff, length, Bool-cases, ◌↔◌, ◌≢◌,
}
use dispute_router.Common.Bytes.{Bytes, codes}
use dispute_router.Common.Int.{pos, ◌<ℤ◌}
use dispute_router.Ingest.Event.{
  DisputeData, DisputeWebhook, is_valid_kind, is_valid_network, are_capitals, is_currency_code,
  is_valid_utf8, validate_values, validate,
}

-- A capital letter of ASCII.
abbrev pub Capital : ℕ → Type 0
Capital r = (65 ≤ r) × (r ≤ 90)

-- currency ~ '^[A-Z]{3}$'.
pub record ThreeCapitals (code : Bytes) : Type 0 where
  pub first : ℕ
  pub second : ℕ
  pub third : ℕ
  pub spelled : code ≡ first ∷ second ∷ third ∷ []
  pub capitals : Capital first × Capital second × Capital third

is_currency_code-ThreeCapitals : (code : Bytes) → is_currency_code code ≡ true → ThreeCapitals code
unfolding is_currency_code are_capitals
is_currency_code-ThreeCapitals (a ∷ b ∷ c ∷ []) h = record {
  first = a;
  second = b;
  third = c;
  spelled = refl;
  capitals = ground arith;
}
is_currency_code-ThreeCapitals [] h = absurd (ground arith)
is_currency_code-ThreeCapitals (a ∷ []) h = absurd (ground arith)
is_currency_code-ThreeCapitals (a ∷ b ∷ []) h = absurd (ground arith)
is_currency_code-ThreeCapitals (a ∷ b ∷ c ∷ d ∷ s) h = absurd (ground arith)

-- What is asked of an event: the names are there, the kind, the network and the currency are ones that the tables take, and the amount,
-- the times and the claim are within bounds.
pub record WellFormed (e : DisputeWebhook) (now : ℕ) : Type 0 where
  pub has_id : e.id ≢ ""
  pub is_opening : e.event_type ≡ "dispute.opened"
  pub has_dispute : e.event_data.dispute_id ≢ ""
  pub has_merchant : e.event_data.merchant_id ≢ ""
  pub has_transaction : e.event_data.transaction_id ≢ ""
  pub has_reason : e.event_data.reason_code ≢ ""
  pub kind_listed : (e.event_data.kind ≡ "alert") ⊎ (e.event_data.kind ≡ "chargeback")
  pub network_listed :
      (e.event_data.card_network ≡ "visa")
      ⊎ (e.event_data.card_network ≡ "mastercard")
      ⊎ (e.event_data.card_network ≡ "amex")
      ⊎ (e.event_data.card_network ≡ "discover")
  pub amount_positive : pos 0 <ℤ e.event_data.amount_minor
  pub currency_spelled : ThreeCapitals (codes e.event_data.currency)
  pub opened_set : 0 < e.event_data.opened_at
  pub opened_first : e.event_data.opened_at < e.event_data.respond_by
  pub still_open : now ≤ e.event_data.respond_by
  pub claim_bounded : length e.event_data.cardholder_claim ≤ 4000
  pub claim_text : is_valid_utf8 e.event_data.cardholder_claim ≡ true

or_cases : (a b : Bool) → (a || b) ≡ true → (a ≡ true) ⊎ (b ≡ true)
or_cases true b h = inl refl
or_cases false b h = inr h

is_valid_kind-listed :
    (kind : String) → is_valid_kind kind ≡ true → (kind ≡ "alert") ⊎ (kind ≡ "chargeback")
unfolding is_valid_kind
is_valid_kind-listed kind h = elim (or_cases _ _ h) [
  | inl e ↦ inl ((eq_iff _ _).0 e)
  | inr e ↦ inr ((eq_iff _ _).0 e)
]

four :
    {P Q R S : Type 0} (a b c d : Bool)
    → (a || b || c || d) ≡ true
    → (a ≡ true → P)
    → (b ≡ true → Q)
    → (c ≡ true → R)
    → (d ≡ true → S)
    → P ⊎ Q ⊎ R ⊎ S
four true b c d h p q r s = inl (p refl)
four false true c d h p q r s = inr (inl (q refl))
four false false true d h p q r s = inr (inr (inl (r refl)))
four false false false d h p q r s = inr (inr (inr (s h)))

is_valid_network-listed :
    (network : String)
    → is_valid_network network ≡ true
    → (network ≡ "visa") ⊎ (network ≡ "mastercard") ⊎ (network ≡ "amex") ⊎ (network ≡ "discover")
unfolding is_valid_network
is_valid_network-listed network h =
    four (str_eq network "visa") (str_eq network "mastercard") (str_eq network "amex")
      (str_eq network "discover") h ((eq_iff _ _).0) ((eq_iff _ _).0) ((eq_iff _ _).0)
      ((eq_iff _ _).0)

-- The tests, as they are when validate accepts.
Tests : DisputeWebhook → ℕ → Type 0
Tests e now =
    (str_eq e.id "" ≡ false)
    × (str_eq e.event_type "dispute.opened" ≡ true)
    × (str_eq e.event_data.dispute_id "" ≡ false)
    × (str_eq e.event_data.merchant_id "" ≡ false)
    × (str_eq e.event_data.transaction_id "" ≡ false)
    × (is_valid_kind e.event_data.kind ≡ true)
    × (is_valid_network e.event_data.card_network ≡ true)
    × (str_eq e.event_data.reason_code "" ≡ false)
    × (validate_values e.event_data now ≡ none)

validate-Tests : (e : DisputeWebhook) (now : ℕ) → (validate e now ≡ none) ↔ Tests e now
unfolding validate Tests
validate-Tests e now =
    ((λ h. ground arith), λ (a, b, c, d, f, k, n, r, v). rw (a, b, c, d, f, k, n, r) v)

ValueTests : DisputeData → ℕ → Type 0
ValueTests d now =
    (pos 0 <ℤ d.amount_minor)
    × (is_currency_code (codes d.currency) ≡ true)
    × (0 < d.opened_at)
    × (d.opened_at < d.respond_by)
    × (now ≤ d.respond_by)
    × (length d.cardholder_claim ≤ 4000)
    × (is_valid_utf8 d.cardholder_claim ≡ true)

validate_values-ValueTests :
    (d : DisputeData) (now : ℕ) → (validate_values d now ≡ none) ↔ ValueTests d now
unfolding validate_values ValueTests
validate_values-ValueTests d now =
    ((λ h. ground arith), λ (a, c, o, f, s, l, u). ground (arith, a, c, o, f, s, l, u))

named : (s : String) → (str_eq s "" ≡ false) ↔ (s ≢ "")
named s = (
  (λ h e. ground (arith, h, (eq_iff s "").1 e)),
  λ ne. elim (Bool-cases (str_eq s "")) [ inl e ↦ absurd (ne ((eq_iff s "").0 e)) | inr e ↦ e ],
)

listed-is_valid_kind :
    (kind : String) → (kind ≡ "alert") ⊎ (kind ≡ "chargeback") → is_valid_kind kind ≡ true
unfolding is_valid_kind
listed-is_valid_kind kind (inl e) = rw ((eq_iff _ _).1 e) refl
listed-is_valid_kind kind (inr e) = ground (arith, (eq_iff kind "chargeback").1 e)

listed-is_valid_network :
    (n : String)
    → (n ≡ "visa") ⊎ (n ≡ "mastercard") ⊎ (n ≡ "amex") ⊎ (n ≡ "discover")
    → is_valid_network n ≡ true
unfolding is_valid_network
listed-is_valid_network n (inl e) = ground (arith, (eq_iff n "visa").1 e)
listed-is_valid_network n (inr (inl e)) = ground (arith, (eq_iff n "mastercard").1 e)
listed-is_valid_network n (inr (inr (inl e))) = ground (arith, (eq_iff n "amex").1 e)
listed-is_valid_network n (inr (inr (inr e))) = ground (arith, (eq_iff n "discover").1 e)

ThreeCapitals-is_currency_code : (code : Bytes) → ThreeCapitals code → is_currency_code code ≡ true
unfolding is_currency_code are_capitals
ThreeCapitals-is_currency_code code t =
    let (a, b, c) = t.capitals in rw t.spelled (ground (arith, a, b, c))

validate_sound : (e : DisputeWebhook) (now : ℕ) → validate e now ≡ none → WellFormed e now
unfolding Tests ValueTests
validate_sound e now h =
    let (i, t, d, m, x, k, n, w, v) = (validate-Tests e now).0 h in
    let (a, c, o, f, s, l, u) = (validate_values-ValueTests e.event_data now).0 v in
    record {
      has_id = (named _).0 i;
      is_opening = (eq_iff _ _).0 t;
      has_dispute = (named _).0 d;
      has_merchant = (named _).0 m;
      has_transaction = (named _).0 x;
      has_reason = (named _).0 w;
      kind_listed = is_valid_kind-listed e.event_data.kind k;
      network_listed = is_valid_network-listed e.event_data.card_network n;
      amount_positive = a;
      currency_spelled = is_currency_code-ThreeCapitals (codes e.event_data.currency) c;
      opened_set = o;
      opened_first = f;
      still_open = s;
      claim_bounded = l;
      claim_text = u;
    }

validate_complete : (e : DisputeWebhook) (now : ℕ) → WellFormed e now → validate e now ≡ none
unfolding Tests ValueTests
validate_complete e now w = (validate-Tests e now).1 (
  (named _).1 w.has_id,
  (eq_iff _ _).1 w.is_opening,
  (named _).1 w.has_dispute,
  (named _).1 w.has_merchant,
  (named _).1 w.has_transaction,
  listed-is_valid_kind e.event_data.kind w.kind_listed,
  listed-is_valid_network e.event_data.card_network w.network_listed,
  (named _).1 w.has_reason,
  (validate_values-ValueTests e.event_data now).1 (
    w.amount_positive,
    ThreeCapitals-is_currency_code (codes e.event_data.currency) w.currency_spelled,
    w.opened_set,
    w.opened_first,
    w.still_open,
    w.claim_bounded,
    w.claim_text,
  ),
)

-- Validate accepts exactly the events that open a dispute, with an id and the ids of the dispute, the merchant and the transaction and a
-- reason code, of a kind and a network that the disputes table lists, for a positive amount in a currency of three capital
-- letters, opened after the zero instant and before a deadline that has not passed, with a claim of at most 4000 bytes of UTF-8.
pub validate-accepts_iff :
    (e : DisputeWebhook) (now : ℕ) → (validate e now ≡ none) ↔ WellFormed e now
validate-accepts_iff e now = (validate_sound e now, validate_complete e now)
