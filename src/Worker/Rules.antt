-- ===== src/Worker/Rules.antt =====
-- internal/worker/rules.go: the policy, a pure function of one dispute and the clock.
-- Amounts are int64 and only compared here, so they are integers; an instant is the number of
-- nanoseconds since the zero value of Go's time.Time.
pub mod Policy
use Prim.Native.String.{◌++◌ as append}
use dispute_router.Common.{
  ℕ, String, Bool, true, false, not, ◌&&◌, ◌||◌, Option, none, some, List, [], ◌∷◌, ltb,
  if◌then◌else◌, str_eq,
}
use dispute_router.Common.Int.{ℤ, pos, leb_ℤ, ltb_ℤ}
use dispute_router.Dispute.{
  State, received, resolving, draft_ready, refunded, expired, Kind, alert, chargeback, other_kind,
}

-- `Action`.
pub data Action : Type 0 where
  refund close escalate expire skip : Action

-- `Decision`. An empty `ToState` is `none`.
pub record Decision : Type 0 where
  pub action : Action
  pub to_state : Option State
  pub reason : String

-- `reasonCategory`.
pub data Category : Type 0 where
  fraud service processing unknown : Category

abbrev pub reason_categories : List (String × Category)
reason_categories =
    ("10.4", fraud)
    ∷ ("13.1", service)
    ∷ ("13.3", service)
    ∷ ("13.6", service)
    ∷ ("13.7", service)
    ∷ ("12.5", processing)
    ∷ ("12.6.1", processing)
    ∷ ("4837", fraud)
    ∷ ("4853", service)
    ∷ ("4855", service)
    ∷ ("4841", service)
    ∷ ("4834", processing)
    ∷ ("F29", fraud)
    ∷ ("C08", service)
    ∷ ("C31", service)
    ∷ ("C02", service)
    ∷ ("P08", processing)
    ∷ ("UA02", fraud)
    ∷ ("UA01", fraud)
    ∷ ("RG", service)
    ∷ ("RM", service)
    ∷ ("AP", service)
    ∷ ("DP", processing)
    ∷ []

find_category : String → List (String × Category) → Category
find_category code [] = unknown
find_category code ((c, category) ∷ table) =
    if str_eq c code then category else find_category code table

-- `categoryOf`.
unfoldable pub category_of : String → Category
unfolding find_category
category_of reason_code = find_category reason_code reason_categories

-- `Candidate`.
pub record Candidate : Type 0 where
  pub id : ℕ
  pub kind : Kind
  pub state : State
  pub reason_code : String
  pub amount_minor : ℤ
  pub currency : String
  pub deadline_at : ℕ
  pub resolved : Bool
  pub auto_refund_ceiling_minor : Option ℤ
  pub refundable_remaining_minor : ℤ

abbrev pub still_open : State → Bool
still_open received = true
still_open resolving = true
still_open draft_ready = true
still_open _ = false

abbrev pub is_draft_ready : State → Bool
is_draft_ready draft_ready = true
is_draft_ready _ = false

abbrev with_reason : Action → Option State → String → Decision
with_reason a s r = record { action = a; to_state = s; reason = r }

abbrev escalates : String → Decision
escalates r = with_reason escalate none r

-- The part of the alert's case behind the test for a ceiling.
decide_within : Candidate → Option ℤ → Decision
decide_within c none = escalates "merchant has no auto-refund ceiling configured"
decide_within c (some ceiling) =
    if ltb_ℤ ceiling c.amount_minor
    then escalates "alert above the merchant's auto-refund ceiling"
    else if ltb_ℤ c.refundable_remaining_minor c.amount_minor
    then escalates "refund would exceed what is left refundable on the original charge"
    else with_reason refund (some refunded) "alert within the merchant's auto-refund ceiling"

decide_alert : Candidate → Decision
unfolding decide_within
decide_alert c =
    if leb_ℤ c.refundable_remaining_minor (pos 0)
    then with_reason close (some refunded)
        "original charge already refunded in full; nothing left to return and no money moved"
    else decide_within c c.auto_refund_ceiling_minor

-- The inner `switch categoryOf(c.ReasonCode)`.
decide_category : String → Category → Decision
decide_category code service =
    escalates "evidence-led reason code; the assistant drafts and a person submits"
decide_category code processing =
    escalates "evidence-led reason code; the assistant drafts and a person submits"
decide_category code fraud =
    escalates "fraud reason code; representment rarely wins without 3DS evidence"
decide_category code unknown = escalates (append "unrecognised reason code " code)

decide_chargeback : Candidate → Decision
unfolding decide_category
decide_chargeback c =
    if leb_ℤ c.refundable_remaining_minor (pos 0)
    then escalates
        "original charge already refunded in full; a credit-issued representment needs a person"
    else decide_category c.reason_code (category_of c.reason_code)

decide_kind : Candidate → Kind → Decision
unfolding decide_alert decide_chargeback
decide_kind c alert = decide_alert c
decide_kind c chargeback = decide_chargeback c
decide_kind c (other_kind k) = escalates (append "unknown dispute kind " k)

-- `Decide`. `!now.Before(c.DeadlineAt)` is `not (ltb now c.deadline_at)`.
unfoldable pub decide : Candidate → ℕ → Decision
unfolding decide_kind
decide c now =
    if c.resolved || not (still_open c.state)
    then with_reason skip none "already resolved"
    else if not (ltb now c.deadline_at)
    then with_reason expire (some expired) "deadline passed with no decision"
    else if is_draft_ready c.state
    then with_reason skip none "awaiting a reviewer"
    else decide_kind c c.kind
