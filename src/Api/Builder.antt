-- ===== src/Api/Builder.antt =====
-- internal/api/filters.go: a WHERE clause and its arguments, put together. A condition is kept apart from its text: the
-- fragments of the source are the constructors, with the positions that Sprintf puts in.
use dispute_router.Common.{
  ℕ, zero, suc, ◌+◌, Bool, false, ◌||◌, List, [], ◌∷◌, ◌++◌, Option, none, length, get_elem?,
}
use dispute_router.Common.Bytes.{Bytes, codes, decimal, bytes_eq}
use dispute_router.Common.Int.{ℤ}

-- A bind argument.
pub data Arg : Type 0 where
  texts : List Bytes → Arg
  text : Bytes → Arg
  amount : ℤ → Arg
  instant : ℤ → Arg

-- The columns that a list of values is tested against, and that a value is.
pub data Column : Type 0 where
  merchant state kind network reason currency : Column

pub data Cond : Type 0 where
  any_of : Column → ℕ → Cond
  equals : Column → ℕ → Cond
  amount_from amount_to opened_from opened_before deadline_by : ℕ → Cond
  is_open : Cond
  reference_like : ℕ → ℕ → Cond

-- `builder`.
pub record Builder : Type 0 where
  pub conds : List Cond
  pub args : List Arg

abbrev pub empty_builder : Builder
empty_builder = record { conds = []; args = [] }

-- `add` of a fragment with one position.
unfoldable pub add : (ℕ → Cond) → Arg → Builder → Builder
add fragment arg b = record {
  conds = b.conds ++ (fragment (length b.args + 1) ∷ []);
  args = b.args ++ (arg ∷ []);
}

-- A condition without an argument.
unfoldable pub add_fixed : Cond → Builder → Builder
add_fixed c b = record b { conds = b.conds ++ (c ∷ []) }

-- One argument with two positions.
unfoldable pub add_twice : (ℕ → ℕ → Cond) → Arg → Builder → Builder
add_twice fragment arg b = record {
  conds = b.conds ++ (fragment (length b.args + 1) (length b.args + 1) ∷ []);
  args = b.args ++ (arg ∷ []);
}

abbrev column_text : Column → Bytes
column_text merchant = codes "m.external_id"
column_text state = codes "d.state"
column_text kind = codes "d.kind"
column_text network = codes "d.card_network"
column_text reason = codes "d.reason_code"
column_text currency = codes "d.currency"

-- A condition's text.
unfoldable pub cond_text : Cond → Bytes
cond_text (any_of c n) = column_text c ++ (codes " = ANY($" ++ (decimal n ++ codes ")"))
cond_text (equals c n) = column_text c ++ (codes " = $" ++ decimal n)
cond_text (amount_from n) = codes "d.amount_minor >= $" ++ decimal n
cond_text (amount_to n) = codes "d.amount_minor <= $" ++ decimal n
cond_text (opened_from n) = codes "d.opened_at >= $" ++ decimal n
cond_text (opened_before n) = codes "d.opened_at < $" ++ decimal n
cond_text (deadline_by n) = codes "d.deadline_at <= $" ++ decimal n
cond_text is_open = codes "d.state IN ('received','resolving')"
cond_text (reference_like m n) =
    codes "(d.external_id LIKE $"
    ++ (decimal m ++ (codes " || '%' OR t.external_id LIKE $" ++ (decimal n ++ codes " || '%')")))

-- strings.Join with " AND ".
unfoldable pub joined : List Cond → Bytes
unfolding cond_text
joined [] = []
joined (c ∷ []) = cond_text c
joined (c ∷ d ∷ cs) = cond_text c ++ (codes " AND " ++ joined (d ∷ cs))

-- `where`.
unfoldable pub where_text : List Cond → Bytes
unfolding joined
where_text [] = []
where_text (c ∷ cs) = codes " WHERE " ++ joined (c ∷ cs)

-- What a condition reads of a dispute, its merchant and its transaction.
pub record Row : Type 0 where
  pub column : Column → Bytes
  pub amount_minor : ℤ
  pub opened_at : ℤ
  pub deadline_at : ℤ
  pub reference : Bytes
  pub transaction_reference : Bytes

unfoldable pub is_one_of : Bytes → List Bytes → Bool
is_one_of t [] = false
is_one_of t (s ∷ ss) = bytes_eq s t || is_one_of t ss

-- The argument at a position, which counts from one.
unfoldable pub bound : List Arg → ℕ → Option Arg
bound args zero = none
bound args (suc n) = get_elem? args n
