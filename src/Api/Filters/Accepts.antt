-- ===== src/Api/Filters/Accepts.antt =====
-- internal/api/filters.go: `apply` against a direct description of the rows that a query asks for.
use dispute_router.Common.{
  ◌≡◌, Bool, true, not, ◌&&◌, ◌||◌, List, [], ◌∷◌, Option, none, some, length, All,
}
use dispute_router.Common.Bytes.{Bytes, bytes_eq}
use dispute_router.Common.Int.{ℤ, ◌+ℤ◌, leb_ℤ, ltb_ℤ}
use dispute_router.Api.Builder.{
  Builder, merchant, state, kind, network, reason, currency, Row, is_one_of,
}
use dispute_router.Api.Filters.{Filters, is_some}
use dispute_router.Api.Filters.Conditions.{is_open_state, all_hold, Within}

-- What each filter asks of a row.
abbrev pub in_list : Bytes → List Bytes → Bool
in_list v [] = true
in_list v (s ∷ ss) = is_one_of v (s ∷ ss)

abbrev pub is_text : Bytes → Bytes → Bool
is_text v [] = true
is_text v (c ∷ s) = bytes_eq v (c ∷ s)

abbrev pub meets : (ℤ → Bool) → Option ℤ → Bool
meets test none = true
meets test (some v) = test v

abbrev pub is_found : (Bytes → Bytes → Bool) → Row → Bytes → Bool
is_found like row [] = true
is_found like row (c ∷ s) = like row.reference (c ∷ s) || like row.transaction_reference (c ∷ s)

-- The rows that the filters describe, at an instant.
unfoldable pub accepts : (Bytes → Bytes → Bool) → Filters → ℤ → Row → Bool
accepts like f now row =
    in_list (row.column merchant) f.merchants
    && in_list (row.column state) f.states
    && in_list (row.column kind) f.kinds
    && in_list (row.column network) f.networks
    && in_list (row.column reason) f.reasons
    && is_text (row.column currency) f.currency_code
    && meets (λ m. leb_ℤ m row.amount_minor) f.min_amount_minor
    && meets (λ m. leb_ℤ row.amount_minor m) f.max_amount_minor
    && meets (λ t. leb_ℤ t row.opened_at) f.opened_from_
    && meets (λ t. ltb_ℤ row.opened_at t) f.opened_to
    && (not (f.open_only || is_some f.due_within) || is_open_state (row.column state))
    && meets (λ d. leb_ℤ row.deadline_at (now +ℤ d)) f.due_within
    && is_found like row f.search

module _ (like : Bytes → Bytes → Bool) (row : Row) where
  -- A builder whose positions are those of its arguments, and whose conditions together say `p`.
  record Says (b : Builder) (p : Bool) : Type 0 where
    pub within : All (Within (length b.args)) b.conds
    pub says : all_hold like row b.args b.conds ≡ p
