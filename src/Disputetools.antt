-- ===== src/Disputetools.antt =====
-- internal/disputetools/tools.go: what the tools do to their arguments and to an e-mail address. An address is the list of its
-- code points; ParseDuration is a parameter.
pub mod Mask
pub mod Limits
use dispute_router.Common.{
  ℕ, ◌+◌, Bool, true, false, ◌||◌, List, [], ◌∷◌, ◌++◌, Option, none, some, ◌==◌, if◌then◌else◌,
}
use dispute_router.Common.Bytes.{Bytes, codes}
use dispute_router.Common.Int.{ℤ, pos, leb_ℤ, ltb_ℤ}
use dispute_router.Api.Filters.{Filters, by_deadline_at, csv_values}

abbrev split_from : ℕ → Bytes → Option (Bytes × Bytes) → Option (Bytes × Bytes)
split_from c s (some (local, domain)) = some (c ∷ local, domain)
split_from c s none = if c == b'@' then some ([], s) else none

-- The two sides of the last "@".
unfoldable pub split_at_last : Bytes → Option (Bytes × Bytes)
split_at_last [] = none
split_at_last (c ∷ s) = split_from c s (split_at_last s)

unfoldable pub masked : Option (Bytes × Bytes) → Bytes
masked none = codes "***"
masked (some ([], domain)) = codes "***"
masked (some (c ∷ [], domain)) = c ∷ b'@' ∷ domain
masked (some (c ∷ d ∷ local, domain)) = c ∷ (codes "***" ++ (b'@' ∷ domain))

-- `maskEmail`.
unfoldable pub mask_email : Bytes → Bytes
unfolding split_at_last masked
mask_email address = masked (split_at_last address)

abbrev pub default_rows : ℤ
default_rows = pos 20

abbrev pub max_rows : ℤ
max_rows = pos 50

-- `clampLimit`.
unfoldable pub clamp_limit : ℤ → ℤ
clamp_limit requested =
    if leb_ℤ requested (pos 0)
    then default_rows
    else if ltb_ℤ max_rows requested
    then max_rows
    else requested

-- `ListDisputesInput`.
pub record ListDisputesInput : Type 0 where
  pub state : Bytes
  pub kind : Bytes
  pub merchant : Bytes
  pub due_within : Bytes
  pub open_only : Bool
  pub limit : ℤ

abbrev pub base_filters : ListDisputesInput → Filters
base_filters i = record {
  merchants = csv_values i.merchant;
  states = csv_values i.state;
  kinds = csv_values i.kind;
  networks = [];
  reasons = [];
  currency_code = [];
  min_amount_minor = none;
  max_amount_minor = none;
  opened_from_ = none;
  opened_to = none;
  due_within = none;
  open_only = i.open_only;
  search = [];
  sort = some by_deadline_at;
  desc = false;
  limit = clamp_limit i.limit;
  offset = pos 0;
}

unfoldable pub windowed : Filters → Option ℤ → Option Filters
windowed f none = none
windowed f (some window) = some (record f { due_within = some window; open_only = true })

unfoldable pub with_window : (Bytes → Option ℤ) → Filters → Bytes → Option Filters
unfolding windowed
with_window parse_duration f [] = some f
with_window parse_duration f (c ∷ raw) = windowed f (parse_duration (c ∷ raw))

-- `ListDisputes` up to the read: a duration that does not parse is an error.
unfoldable pub list_filters : (Bytes → Option ℤ) → ListDisputesInput → Option Filters
unfolding with_window clamp_limit csv_values
list_filters parse_duration i = with_window parse_duration (base_filters i) i.due_within
