-- ===== src/Api/Filters/Sql.antt =====
-- internal/api/filters.go: the texts of the conditions, read as SQL.
use dispute_router.Common.{
  ℕ, ◌≡◌, refl, Bool, true, false, ◌&&◌, ◌||◌, List, [], ◌∷◌, ◌++◌, Option, none, some, ◌==◌,
  if◌then◌else◌,
}
use dispute_router.Common.Bytes.{Bytes, codes, decimal, bytes_eq}
use dispute_router.Common.Digits.{read, read-decimal, read-decimal_end}
use dispute_router.Common.Int.{leb_ℤ, ltb_ℤ}
use dispute_router.Api.Builder.{
  Arg, merchant, state, kind, network, reason, currency, Cond, any_of, equals, amount_from,
  amount_to, opened_from, opened_before, deadline_by, is_open, reference_like, Row, bound,
  cond_text,
}
use dispute_router.Api.Filters.Conditions.{
  any_holds, text_holds, amount_holds, instant_holds, is_open_state, cond_holds, all_hold,
}

-- The text behind a prefix.
unfoldable pub strip : Bytes → Bytes → Option Bytes
strip [] t = some t
strip (c ∷ p) [] = none
strip (c ∷ p) (d ∷ t) = let rest = strip p t in if c == d then rest else none

-- What a condition with one position says, by the text in front of it.
abbrev operators : Row → List (Bytes × (Option Arg → Bool))
operators row =
    (codes "m.external_id = ANY($", any_holds (row.column merchant))
    ∷ (codes "d.state = ANY($", any_holds (row.column state))
    ∷ (codes "d.kind = ANY($", any_holds (row.column kind))
    ∷ (codes "d.card_network = ANY($", any_holds (row.column network))
    ∷ (codes "d.reason_code = ANY($", any_holds (row.column reason))
    ∷ (codes "d.currency = ANY($", any_holds (row.column currency))
    ∷ (codes "m.external_id = $", text_holds (bytes_eq (row.column merchant)))
    ∷ (codes "d.state = $", text_holds (bytes_eq (row.column state)))
    ∷ (codes "d.kind = $", text_holds (bytes_eq (row.column kind)))
    ∷ (codes "d.card_network = $", text_holds (bytes_eq (row.column network)))
    ∷ (codes "d.reason_code = $", text_holds (bytes_eq (row.column reason)))
    ∷ (codes "d.currency = $", text_holds (bytes_eq (row.column currency)))
    ∷ (codes "d.amount_minor >= $", amount_holds (λ m. leb_ℤ m row.amount_minor))
    ∷ (codes "d.amount_minor <= $", amount_holds (λ m. leb_ℤ row.amount_minor m))
    ∷ (codes "d.opened_at >= $", instant_holds (λ t. leb_ℤ t row.opened_at))
    ∷ (codes "d.opened_at < $", instant_holds (λ t. ltb_ℤ row.opened_at t))
    ∷ (codes "d.deadline_at <= $", instant_holds (λ t. leb_ℤ row.deadline_at t))
    ∷ []

unfoldable pub look_up : List (Bytes × (Option Arg → Bool)) → List Arg → Bytes → Bool
unfolding strip
look_up [] args t = false
look_up ((p, test) ∷ more) args t =
    let rest = look_up more args t in
    elim (strip p t) [ some tail ↦ test (bound args (read 0 tail).0) | none ↦ rest ]

-- What a condition with two positions says, once its first text is stripped.
unfoldable pub both_like : (Bytes → Bytes → Bool) → Row → List Arg → ℕ × Bytes → Bool
both_like like row args (m, t) = elim (strip (codes " || '%' OR t.external_id LIKE $") t) [
  | none ↦ false
  | some tail ↦
      text_holds (like row.reference) (bound args m)
      || text_holds (like row.transaction_reference) (bound args (read 0 tail).0)
]

-- What the text of a condition says of a row, with these arguments; a text of no known form says nothing of any.
unfoldable pub sql_holds : (Bytes → Bytes → Bool) → Row → List Arg → Bytes → Bool
unfolding look_up both_like
sql_holds like row args t =
    let plain = look_up (operators row) args t in
    elim (strip (codes "d.state IN ('received','resolving')") t) [
      | some tail ↦ is_open_state (row.column state)
      | none ↦ elim (strip (codes "(d.external_id LIKE $") t) [
        | some tail ↦ both_like like row args (read 0 tail)
        | none ↦ plain
      ]
    ]

module _ (like : Bytes → Bytes → Bool) (row : Row) (args : List Arg) where
  -- The text of a condition says what the condition does.
  pub sql_holds-cond_text :
      (c : Cond) → sql_holds like row args (cond_text c) ≡ cond_holds like row args c
  unfolding sql_holds cond_text cond_holds strip look_up both_like
  sql_holds-cond_text (any_of merchant n) = rw (read-decimal n b')' [] refl) refl
  sql_holds-cond_text (any_of state n) = rw (read-decimal n b')' [] refl) refl
  sql_holds-cond_text (any_of kind n) = rw (read-decimal n b')' [] refl) refl
  sql_holds-cond_text (any_of network n) = rw (read-decimal n b')' [] refl) refl
  sql_holds-cond_text (any_of reason n) = rw (read-decimal n b')' [] refl) refl
  sql_holds-cond_text (any_of currency n) = rw (read-decimal n b')' [] refl) refl
  sql_holds-cond_text (equals merchant n) = rw (read-decimal_end n) refl
  sql_holds-cond_text (equals state n) = rw (read-decimal_end n) refl
  sql_holds-cond_text (equals kind n) = rw (read-decimal_end n) refl
  sql_holds-cond_text (equals network n) = rw (read-decimal_end n) refl
  sql_holds-cond_text (equals reason n) = rw (read-decimal_end n) refl
  sql_holds-cond_text (equals currency n) = rw (read-decimal_end n) refl
  sql_holds-cond_text (amount_from n) = rw (read-decimal_end n) refl
  sql_holds-cond_text (amount_to n) = rw (read-decimal_end n) refl
  sql_holds-cond_text (opened_from n) = rw (read-decimal_end n) refl
  sql_holds-cond_text (opened_before n) = rw (read-decimal_end n) refl
  sql_holds-cond_text (deadline_by n) = rw (read-decimal_end n) refl
  sql_holds-cond_text is_open = refl
  sql_holds-cond_text (reference_like m n) =
      rw
        (read-decimal m b' '
          (codes "|| '%' OR t.external_id LIKE $" ++ (decimal n ++ codes " || '%')")) refl)
        (rw (read-decimal n b' ' (codes "|| '%')") refl) refl)

-- All the texts hold.
unfoldable pub all_sql : (Bytes → Bytes → Bool) → Row → List Arg → List Cond → Bool
unfolding sql_holds cond_text
all_sql like row args [] = true
all_sql like row args (c ∷ cs) = sql_holds like row args (cond_text c) && all_sql like row args cs

pub all_sql-all_hold :
    (like : Bytes → Bytes → Bool) (row : Row) (args : List Arg) (cs : List Cond)
    → all_sql like row args cs ≡ all_hold like row args cs
unfolding all_sql all_hold
all_sql-all_hold like row args [] = refl
all_sql-all_hold like row args (c ∷ cs) =
    rw (sql_holds-cond_text like row args c, all_sql-all_hold like row args cs) refl
