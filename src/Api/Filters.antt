-- ===== src/Api/Filters.antt =====
-- internal/api/filters.go: one dashboard query, from the query string to its conditions. The values of the query
-- are a parameter, with "" for an absent one, and so are time.Parse and ParseDuration; instants and
-- durations are in nanoseconds. Letters outside ASCII are not raised to capitals.
pub mod Enums
pub mod Bounds
pub mod Conditions
pub mod Accepts
pub mod Sql
use dispute_router.Common.{
  ℕ, ◌+◌, ◌-◌, Bool, true, false, not, ◌&&◌, ◌||◌, List, [], ◌∷◌, ◌++◌, Option, none, some, leb,
  ltb, ◌==◌, length, if◌then◌else◌,
}
use dispute_router.Common.Bytes.{Bytes, codes, bytes_eq}
use dispute_router.Common.Int.{ℤ, pos, negsuc, ◌+ℤ◌, leb_ℤ, ltb_ℤ}
use dispute_router.Common.Text.{split, trim_space, parse_int}
use dispute_router.Api.Builder.{
  Builder, Cond, Arg, add, add_fixed, add_twice, texts, text, amount, instant, merchant, state,
  kind, network, reason, currency, any_of, equals, amount_from, amount_to, opened_from,
  opened_before, deadline_by, is_open, reference_like, is_one_of,
}

-- The keys of sortColumns.
pub data Sort : Type 0 where
  by_opened_at by_deadline_at by_amount by_state by_merchant by_kind : Sort

-- `Filters`; a sort key that is not in sortColumns is `none`.
pub record Filters : Type 0 where
  pub merchants : List Bytes
  pub states : List Bytes
  pub kinds : List Bytes
  pub networks : List Bytes
  pub reasons : List Bytes
  pub currency_code : Bytes
  pub min_amount_minor : Option ℤ
  pub max_amount_minor : Option ℤ
  pub opened_from_ : Option ℤ
  pub opened_to : Option ℤ
  pub due_within : Option ℤ
  pub open_only : Bool
  pub search : Bytes
  pub sort : Option Sort
  pub desc : Bool
  pub limit : ℤ
  pub offset : ℤ

abbrev pub default_limit : ℤ
default_limit = pos 50

abbrev pub max_limit : ℤ
max_limit = pos 200

abbrev pub max_offset : ℤ
max_offset = pos 10000

-- What a request is refused for.
pub data Refusal : Type 0 where
  unknown_sort bad_limit bad_offset offset_too_deep bad_amount bad_instant bad_duration : Refusal
  unknown_state unknown_kind unknown_network bad_currency : Refusal

pub data Parsed (A : Type 0) : Type 0 where
  parsed : A → Parsed A
  refused : Refusal → Parsed A

unfoldable pub and_then : {A B : Type 0} → Parsed A → (A → Parsed B) → Parsed B
and_then (parsed a) f = f a
and_then (refused e) f = refused e

unfoldable pub min_ℤ : ℤ → ℤ → ℤ
min_ℤ a b = if leb_ℤ a b then a else b

unfoldable pub max_ℤ : ℤ → ℤ → ℤ
max_ℤ a b = if leb_ℤ a b then b else a

unfoldable pub limit_of : Option ℤ → Parsed ℤ
unfolding min_ℤ
limit_of none = refused bad_limit
limit_of (some n) = if ltb_ℤ n (pos 1) then refused bad_limit else parsed (min_ℤ n max_limit)

-- `parseLimit`.
unfoldable pub parse_limit : Bytes → Parsed ℤ
unfolding limit_of
parse_limit [] = parsed default_limit
parse_limit (c ∷ raw) = limit_of (parse_int (c ∷ raw))

unfoldable pub offset_of : Option ℤ → Parsed ℤ
offset_of none = refused bad_offset
offset_of (some n) =
    if ltb_ℤ n (pos 0)
    then refused bad_offset
    else if ltb_ℤ max_offset n
    then refused offset_too_deep
    else parsed n

-- `parseOffset`.
unfoldable pub parse_offset : Bytes → Parsed ℤ
unfolding offset_of
parse_offset [] = parsed (pos 0)
parse_offset (c ∷ raw) = offset_of (parse_int (c ∷ raw))

unfoldable pub sort_or : Option Sort → Option Sort
sort_or none = some by_opened_at
sort_or (some s) = some s

-- `normalize`.
unfoldable pub normalize : Filters → Filters
unfolding sort_or min_ℤ max_ℤ
normalize f = record f {
  sort = sort_or f.sort;
  limit = min_ℤ (if leb_ℤ f.limit (pos 0) then default_limit else f.limit) max_limit;
  offset = max_ℤ f.offset (pos 0);
}

abbrev pub known_states : List Bytes
known_states =
    codes "received"
    ∷ codes "resolving"
    ∷ codes "draft_ready"
    ∷ codes "refunded"
    ∷ codes "represented"
    ∷ codes "won"
    ∷ codes "lost"
    ∷ codes "expired"
    ∷ []

abbrev pub known_kinds : List Bytes
known_kinds = codes "alert" ∷ codes "chargeback" ∷ []

abbrev pub known_networks : List Bytes
known_networks = codes "visa" ∷ codes "mastercard" ∷ codes "amex" ∷ codes "discover" ∷ []

pub all_known : List Bytes → List Bytes → Bool
unfolding is_one_of
all_known known [] = true
all_known known (v ∷ vs) = is_one_of v known && all_known known vs

-- `validateEnums`: what it refuses, if anything.
unfoldable pub validate_enums : Filters → Option Refusal
unfolding all_known
validate_enums f =
    if not (all_known known_states f.states)
    then some unknown_state
    else if not (all_known known_kinds f.kinds)
    then some unknown_kind
    else if not (all_known known_networks f.networks)
    then some unknown_network
    else if length f.currency_code == 0 || length f.currency_code == 3
    then none
    else some bad_currency

trimmed_parts : List Bytes → List Bytes
trimmed_parts [] = []
trimmed_parts (p ∷ ps) =
    let rest = trimmed_parts ps in let t = trim_space p in if length t == 0 then rest else t ∷ rest

-- `csvValues`.
unfoldable pub csv_values : Bytes → List Bytes
unfolding trimmed_parts
csv_values raw = if length (trim_space raw) == 0 then [] else trimmed_parts (split b',' raw)

upper : Bytes → Bytes
upper [] = []
upper (c ∷ s) = (if leb b'a' c && leb c b'z' then c - 32 else c) ∷ upper s

-- sortColumns[raw].
unfoldable pub sort_key : Bytes → Option Sort
sort_key raw =
    if bytes_eq raw (codes "opened_at")
    then some by_opened_at
    else if bytes_eq raw (codes "deadline_at")
    then some by_deadline_at
    else if bytes_eq raw (codes "amount")
    then some by_amount
    else if bytes_eq raw (codes "state")
    then some by_state
    else if bytes_eq raw (codes "merchant")
    then some by_merchant
    else if bytes_eq raw (codes "kind")
    then some by_kind
    else none

-- What the query string's readers answer.
pub record Readers : Type 0 where
  pub get : Bytes → Bytes
  pub parse_instant : Bytes → Option ℤ
  pub parse_duration : Bytes → Option ℤ

amount_of : Option ℤ → Parsed (Option ℤ)
amount_of none = refused bad_amount
amount_of (some n) = if ltb_ℤ n (pos 0) then refused bad_amount else parsed (some n)

unfoldable pub read_amount : Bytes → Parsed (Option ℤ)
unfolding amount_of
read_amount [] = parsed none
read_amount (c ∷ raw) = amount_of (parse_int (c ∷ raw))

unfoldable pub read_instant : Readers → Bytes → Parsed (Option ℤ)
read_instant r [] = parsed none
read_instant r (c ∷ raw) = elim (r.parse_instant (c ∷ raw)) [
  | none ↦ refused bad_instant
  | some t ↦ parsed (some t)
]

duration_of : Option ℤ → Parsed (Option ℤ)
duration_of none = refused bad_duration
duration_of (some d) = if leb_ℤ d (pos 0) then refused bad_duration else parsed (some d)

unfoldable pub read_duration : Readers → Bytes → Parsed (Option ℤ)
unfolding duration_of
read_duration r [] = parsed none
read_duration r (c ∷ raw) = duration_of (r.parse_duration (c ∷ raw))

unfoldable pub checked_by : Filters → Option Refusal → Parsed Filters
checked_by f none = parsed f
checked_by f (some e) = refused e

unfoldable pub checked : Filters → Parsed Filters
unfolding validate_enums checked_by
checked f = checked_by f (validate_enums f)

unfoldable pub known_sort : Option Sort → Parsed (Option Sort)
known_sort none = refused unknown_sort
known_sort (some s) = parsed (some s)

unfoldable pub read_sort : Bytes → Parsed (Option Sort)
unfolding sort_key known_sort
read_sort [] = parsed (some by_opened_at)
read_sort (c ∷ raw) = known_sort (sort_key (c ∷ raw))

-- The query, from what was read of it.
unfoldable pub gathered :
    Readers → (Option Sort) → (limit offset : ℤ) → (least most from to window : Option ℤ) → Filters
unfolding csv_values upper
gathered r sort_ limit_ offset_ least most from to window = record {
  merchants = csv_values (r.get (codes "merchant"));
  states = csv_values (r.get (codes "state"));
  kinds = csv_values (r.get (codes "kind"));
  networks = csv_values (r.get (codes "network"));
  reasons = csv_values (r.get (codes "reason"));
  currency_code = upper (trim_space (r.get (codes "currency")));
  min_amount_minor = least;
  max_amount_minor = most;
  opened_from_ = from;
  opened_to = to;
  due_within = window;
  open_only = bytes_eq (r.get (codes "open")) (codes "true");
  search = trim_space (r.get (codes "q"));
  sort = sort_;
  desc = not (bytes_eq (r.get (codes "dir")) (codes "asc"));
  limit = limit_;
  offset = offset_;
}

-- `parseFilters`.
unfoldable pub parse_filters : Readers → Parsed Filters
unfolding and_then read_sort parse_limit parse_offset read_amount read_instant read_duration checked
    gathered
parse_filters r = and_then (read_sort (r.get (codes "sort"))) λ sort_.
    and_then (parse_limit (r.get (codes "limit"))) λ limit_.
      and_then (parse_offset (r.get (codes "offset"))) λ offset_.
        and_then (read_amount (r.get (codes "min_amount"))) λ least.
          and_then (read_amount (r.get (codes "max_amount"))) λ most.
            and_then (read_instant r (r.get (codes "opened_from"))) λ from.
              and_then (read_instant r (r.get (codes "opened_to"))) λ to.
                and_then (read_duration r (r.get (codes "due_within")))
                  λ window. checked (gathered r sort_ limit_ offset_ least most from to window)

-- The conditions of `apply`, one after another: that of a list of values, of a value, and of an optional one.
unfoldable pub add_any : (ℕ → Cond) → List Bytes → Builder → Builder
unfolding add
add_any fragment [] b = b
add_any fragment (v ∷ vs) b = add fragment (texts (v ∷ vs)) b

unfoldable pub add_text : (ℕ → Cond) → Bytes → Builder → Builder
unfolding add
add_text fragment [] b = b
add_text fragment (c ∷ s) b = add fragment (text (c ∷ s)) b

unfoldable pub add_optional : (ℕ → Cond) → (ℤ → Arg) → Option ℤ → Builder → Builder
unfolding add
add_optional fragment arg none b = b
add_optional fragment arg (some v) b = add fragment (arg v) b

abbrev pub is_some : Option ℤ → Bool
is_some none = false
is_some (some v) = true

abbrev pub by_now : ℤ → Option ℤ → Option ℤ
by_now now none = none
by_now now (some d) = some (now +ℤ d)

unfoldable pub add_open : Bool → Builder → Builder
unfolding add_fixed
add_open wanted b = if wanted then add_fixed is_open b else b

unfoldable pub add_search : Bytes → Builder → Builder
unfolding add_twice
add_search [] b = b
add_search (c ∷ s) b = add_twice reference_like (text (c ∷ s)) b

-- `apply`.
unfoldable pub apply : Filters → ℤ → Builder → Builder
unfolding add_any add_text add_optional add_open add_search
apply f now b = add_search f.search (
    add_optional deadline_by instant (by_now now f.due_within) (
      add_open (f.open_only || is_some f.due_within) (
        add_optional opened_before instant f.opened_to (
          add_optional opened_from instant f.opened_from_ (
            add_optional amount_to amount f.max_amount_minor (
              add_optional amount_from amount f.min_amount_minor (
                add_text (equals currency) f.currency_code (
                  add_any (any_of reason) f.reasons (
                    add_any (any_of network) f.networks (
                      add_any (any_of kind) f.kinds (
                        add_any (any_of state) f.states
                          (add_any (any_of merchant) f.merchants b))))))))))))

abbrev sort_column : Option Sort → Bytes
sort_column none = []
sort_column (some by_opened_at) = codes "d.opened_at"
sort_column (some by_deadline_at) = codes "d.deadline_at"
sort_column (some by_amount) = codes "d.amount_minor"
sort_column (some by_state) = codes "d.state"
sort_column (some by_merchant) = codes "m.name"
sort_column (some by_kind) = codes "d.kind"

-- `orderBy`.
unfoldable pub order_by : Filters → Bytes
order_by f =
    let direction : Bytes = if f.desc then codes "DESC" else codes "ASC" in
    codes " ORDER BY "
    ++ (sort_column f.sort ++ (codes " " ++ (direction ++ (codes ", d.id " ++ direction))))
