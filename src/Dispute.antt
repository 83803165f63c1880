-- ===== src/Dispute.antt =====
-- internal/dispute/dispute.go: the vocabulary of the lifecycle.
use dispute_router.Common.{String, Bool, true, false, str_eq, if◌then◌else◌}

-- `State`. The strings are the database's; `unlisted` is any string that is none of the eight.
pub data State : Type 0 where
  received resolving draft_ready represented refunded won lost expired : State
  unlisted : String → State

-- `Kind`. `other_kind` is any string but the two.
pub data Kind : Type 0 where
  alert chargeback : Kind
  other_kind : String → Kind

-- `s == t` on states, as the strings are compared.
unfoldable pub state_eq : State → State → Bool
state_eq received received = true
state_eq resolving resolving = true
state_eq draft_ready draft_ready = true
state_eq represented represented = true
state_eq refunded refunded = true
state_eq won won = true
state_eq lost lost = true
state_eq expired expired = true
state_eq (unlisted a) (unlisted b) = str_eq a b
state_eq _ _ = false

-- The states of `resolved_at IS NOT NULL` in `disputes_resolved_has_timestamp`.
abbrev pub is_resolved_state : State → Bool
is_resolved_state refunded = true
is_resolved_state won = true
is_resolved_state lost = true
is_resolved_state expired = true
is_resolved_state _ = false

-- State(s), the conversion of a string.
unfoldable pub state_of : String → State
state_of s =
    if str_eq s "received"
    then received
    else if str_eq s "resolving"
    then resolving
    else if str_eq s "draft_ready"
    then draft_ready
    else if str_eq s "represented"
    then represented
    else if str_eq s "refunded"
    then refunded
    else if str_eq s "won"
    then won
    else if str_eq s "lost"
    then lost
    else if str_eq s "expired"
    then expired
    else unlisted s

-- Kind(s).
unfoldable pub kind_of : String → Kind
kind_of k =
    if str_eq k "alert" then alert else if str_eq k "chargeback" then chargeback else other_kind k
