-- ===== src/Api/Filters/Bounds.antt =====
-- internal/api/filters.go: what a parsed or normalised query keeps to.
use dispute_router.Common.{
  zero, suc, ◌≡◌, ◌⊎◌, refl, inl, inr, ◌≢◌, true, false, [], ◌∷◌, All, length, Option, none, some,
  arith, if◌then◌else◌, Bool-cases,
}
use dispute_router.Common.Bytes.{Bytes, codes}
use dispute_router.Common.Int.{ℤ, pos, negsuc, leb_ℤ, ltb_ℤ, ◌≤ℤ◌}
use dispute_router.Common.Text.{parse_int}
use dispute_router.Api.Filters.{
  Sort, Filters, default_limit, max_limit, max_offset, Refusal, Parsed, parsed, refused, and_then,
  limit_of, offset_of, parse_limit, parse_offset, normalize, validate_enums, known_states,
  known_kinds, known_networks, checked, checked_by, known_sort, gathered, sort_or, read_sort,
  sort_key, read_amount, read_instant, read_duration, Readers, parse_filters, min_ℤ, max_ℤ,
}
use dispute_router.Api.Filters.Enums.{
  IsState, IsKind, IsNetwork, all_known-All, known_states-IsState, known_networks-IsNetwork,
  validate_enums-parts,
}

-- A page of 1 to 200 rows from 10,000 on at most, by a known column, whose values are ones that the schema lists.
pub record Usable (f : Filters) : Type 0 where
  pub some_rows : pos 1 ≤ℤ f.limit
  pub few_rows : f.limit ≤ℤ max_limit
  pub from_start : pos 0 ≤ℤ f.offset
  pub not_deep : f.offset ≤ℤ max_offset
  pub sorted : f.sort ≢ none
  pub states_listed : All IsState f.states
  pub kinds_listed : All IsKind f.kinds
  pub networks_listed : All IsNetwork f.networks
  pub currency_size : (length f.currency_code ≡ 0) ⊎ (length f.currency_code ≡ 3)

-- What is parsed has the property.
abbrev pub Holds : {A : Type 0} → (A → Type 0) → Parsed A → Type 0
Holds P (parsed a) = P a
Holds P (refused e) = Unit

and_then-Holds :
    {A B : Type 0} (P : A → Type 0) (Q : B → Type 0) (r : Parsed A) (g : A → Parsed B)
    → Holds P r
    → ((a : A) → P a → Holds Q (g a))
    → Holds Q (and_then r g)
unfolding and_then
and_then-Holds P Q (parsed a) g h k = k a h
and_then-Holds P Q (refused e) g h k = tt

any_value : {A : Type 0} (r : Parsed A) → Holds (λ a. Unit {0}) r
any_value (parsed a) = tt
any_value (refused e) = tt

parse_limit-bounds : (raw : Bytes) → Holds (λ n. (pos 1 ≤ℤ n) × (n ≤ℤ max_limit)) (parse_limit raw)
unfolding parse_limit
parse_limit-bounds [] = (omega arith, omega arith)
parse_limit-bounds (c ∷ raw) = limits (parse_int (c ∷ raw))
  where
    limits : (o : Option ℤ) → Holds (λ n. (pos 1 ≤ℤ n) × (n ≤ℤ max_limit)) (limit_of o)
    limits none = tt
    limits (some n) = elim (Bool-cases (ltb_ℤ n (pos 1))) [
      | inl e ↦ rw e tt
      | inr e ↦ rw e (elim (Bool-cases (leb_ℤ n max_limit)) [
        | inl g ↦ rw g (ground arith, ground arith)
        | inr g ↦ rw g (omega arith, omega arith)
      ])
    ]

parse_offset-bounds :
    (raw : Bytes) → Holds (λ n. (pos 0 ≤ℤ n) × (n ≤ℤ max_offset)) (parse_offset raw)
unfolding parse_offset
parse_offset-bounds [] = (omega arith, omega arith)
parse_offset-bounds (c ∷ raw) = offsets (parse_int (c ∷ raw))
  where
    offsets : (o : Option ℤ) → Holds (λ n. (pos 0 ≤ℤ n) × (n ≤ℤ max_offset)) (offset_of o)
    offsets none = tt
    offsets (some n) = elim (Bool-cases (ltb_ℤ n (pos 0))) [
      | inl e ↦ rw e tt
      | inr e ↦ rw e (elim (Bool-cases (ltb_ℤ max_offset n)) [
        | inl g ↦ rw g tt
        | inr g ↦ rw g (ground arith, ground arith)
      ])
    ]

read_sort-known : (raw : Bytes) → Holds (λ o. o ≢ none) (read_sort raw)
unfolding read_sort known_sort
read_sort-known [] = λ e. ground arith
read_sort-known (c ∷ raw) = keys (sort_key (c ∷ raw))
  where
    keys : (o : Option Sort) → Holds (λ o. o ≢ none) (known_sort o)
    keys none = tt
    keys (some s) = λ e. ground arith

checked-Usable :
    (f : Filters)
    → (pos 1 ≤ℤ f.limit) × (f.limit ≤ℤ max_limit)
    → (pos 0 ≤ℤ f.offset) × (f.offset ≤ℤ max_offset)
    → f.sort ≢ none
    → Holds Usable (checked f)
unfolding checked checked_by
checked-Usable f (a, b) (c, d) s = answer (validate_enums f) refl
  where
    answer : (o : Option Refusal) → validate_enums f ≡ o → Holds Usable (checked_by f o)
    answer none e =
        let (states, kinds, networks, size) = validate_enums-parts f e in
        record {
          some_rows = a;
          few_rows = b;
          from_start = c;
          not_deep = d;
          sorted = s;
          states_listed = all_known-All IsState known_states f.states known_states-IsState states;
          kinds_listed =
              all_known-All IsKind known_kinds f.kinds (λ v. ((λ k. inl k), ((λ k. inr k), tt)))
                kinds;
          networks_listed =
              all_known-All IsNetwork known_networks f.networks known_networks-IsNetwork networks;
          currency_size = size;
        }
    answer (some x) e = tt

-- A query string that is not refused comes to a page of 1 to 200 rows that starts at row 10,000 at most, by a column that
-- exists; each of its states, kinds and networks is one that the schema lists, and its currency is left out or of three bytes.
pub parse_filters-Usable : (r : Readers) → Holds Usable (parse_filters r)
unfolding parse_filters gathered
parse_filters-Usable r =
    and_then-Holds _ _ (read_sort (r.get (codes "sort"))) _ (read_sort-known _) λ sort_ s.
      and_then-Holds _ _ (parse_limit (r.get (codes "limit"))) _ (parse_limit-bounds _) λ limit_ l.
        and_then-Holds _ _ (parse_offset (r.get (codes "offset"))) _ (parse_offset-bounds _)
          λ offset_ o.
            and_then-Holds _ _ (read_amount (r.get (codes "min_amount"))) _ (any_value _) λ least u.
              and_then-Holds _ _ (read_amount (r.get (codes "max_amount"))) _ (any_value _)
                λ most u.
                  and_then-Holds _ _ (read_instant r (r.get (codes "opened_from"))) _ (any_value _)
                    λ from u.
                      and_then-Holds _ _ (read_instant r (r.get (codes "opened_to"))) _
                        (any_value _)
                        λ to u.
                          and_then-Holds _ _ (read_duration r (r.get (codes "due_within"))) _
                            (any_value _)
                            λ window u.
                              checked-Usable
                                (gathered r sort_ limit_ offset_ least most from to window) l o s

-- Filters with limits that suit the store are left as they are by normalize.
pub normalize-same :
    (f : Filters)
    → pos 1 ≤ℤ f.limit
    → f.limit ≤ℤ max_limit
    → pos 0 ≤ℤ f.offset
    → f.sort ≢ none
    → normalize f ≡ f
unfolding normalize sort_or min_ℤ max_ℤ
normalize-same f a b c d =
    let p = kept f.sort d in
    let q = within f.limit a b in
    let r = started f.offset c in λ i. record f { sort = p i; limit = q i; offset = r i }
  where
    kept : (o : Option Sort) → o ≢ none → sort_or o ≡ o
    kept none h = absurd (h refl)
    kept (some s) h = refl

    within :
        (n : ℤ)
        → pos 1 ≤ℤ n
        → n ≤ℤ max_limit
        → min_ℤ (if leb_ℤ n (pos 0) then default_limit else n) max_limit ≡ n
    within n a b =
        let e : leb_ℤ n (pos 0) ≡ false = ground arith in
        let g : leb_ℤ n max_limit ≡ true = ground arith in rw (e, g) refl

    started : (n : ℤ) → pos 0 ≤ℤ n → max_ℤ n (pos 0) ≡ n
    started (pos zero) a = refl
    started (pos (suc n)) a = ground arith
    started (negsuc n) a = absurd (omega arith)

pub normalize-Usable : (f : Filters) → Usable f → normalize f ≡ f
normalize-Usable f u = normalize-same f u.some_rows u.few_rows u.from_start u.sorted
