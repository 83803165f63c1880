-- ===== src/Disputetools/Limits.antt =====
-- internal/disputetools/tools.go, with normalize of internal/api/filters.go: what the list_disputes tool asks the store for.
use dispute_router.Common.{
  ◌≡◌, refl, subst, ◌⊎◌, inl, inr, ◌≢◌, Bool, true, false, [], ◌∷◌, Option, none, some, arith,
  Option-cases,
}
use dispute_router.Common.Bytes.{Bytes}
use dispute_router.Common.Int.{ℤ, pos, ◌≤ℤ◌}
use dispute_router.Api.Filters.{Filters, normalize, by_deadline_at}
use dispute_router.Api.Filters.Bounds.{normalize-same}
use dispute_router.Disputetools.{
  base_filters, max_rows, clamp_limit, ListDisputesInput, list_filters, with_window, windowed,
}

clamp_limit-bounds : (n : ℤ) → (pos 1 ≤ℤ clamp_limit n) × (clamp_limit n ≤ℤ max_rows)
unfolding clamp_limit
clamp_limit-bounds n = ground arith

-- What the tool asks for: 1 to 50 rows from the start, by deadline, the soonest first, and of open disputes alone when a
-- window is given or open ones are asked for.
pub record Asked (i : ListDisputesInput) (f : Filters) : Type 0 where
  pub some_rows : pos 1 ≤ℤ f.limit
  pub few_rows : f.limit ≤ℤ max_rows
  pub from_start : f.offset ≡ pos 0
  pub soonest : (f.sort ≡ some by_deadline_at) × (f.desc ≡ false)
  pub open_alone : (i.open_only ≡ true) ⊎ (f.due_within ≢ none) → f.open_only ≡ true

base-Asked : (i : ListDisputesInput) → Asked i (base_filters i)
base-Asked i = record {
  some_rows = (clamp_limit-bounds i.limit).0;
  few_rows = (clamp_limit-bounds i.limit).1;
  from_start = refl;
  soonest = (refl, refl);
  open_alone = λ h. elim h [ inl o ↦ o | inr n ↦ absurd (n refl) ];
}

base-same :
    (i : ListDisputesInput) (window : Option ℤ) (opened : Bool)
    → normalize (record (base_filters i) { due_within = window; open_only = opened })
      ≡ record (base_filters i) { due_within = window; open_only = opened }
base-same i window opened =
    let (a, b) = clamp_limit-bounds i.limit in
    normalize-same (record (base_filters i) { due_within = window; open_only = opened }) a
      (omega arith) (omega arith) (λ e. ground arith)

-- Whatever its arguments: the tool's query, when it makes one, is of 1 to 50 rows from the start, by deadline, the soonest
-- first, of open disputes alone when a window is given or they are asked for, and the store reads it as it is.
pub list_filters-Asked :
    (parse_duration : Bytes → Option ℤ) (i : ListDisputesInput) (f : Filters)
    → list_filters parse_duration i ≡ some f
    → Asked i f × (normalize f ≡ f)
unfolding list_filters with_window windowed
list_filters-Asked parse_duration i f h = by_window i.due_within h
  where
    windows :
        (w : ℤ)
        → record (base_filters i) { due_within = some w; open_only = true } ≡ f
        → Asked i f × (normalize f ≡ f)
    windows w e =
        subst (λ g. Asked i g × (normalize g ≡ g)) e
          (
            record {
              some_rows = (clamp_limit-bounds i.limit).0;
              few_rows = (clamp_limit-bounds i.limit).1;
              from_start = refl;
              soonest = (refl, refl);
              open_alone = λ k. refl;
            },
            base-same i (some w) true,
          )

    by_window :
        (raw : Bytes)
        → with_window parse_duration (base_filters i) raw ≡ some f
        → Asked i f × (normalize f ≡ f)
    by_window [] g =
        let same : base_filters i ≡ f = ground arith in
        subst (λ k. Asked i k × (normalize k ≡ k)) same (base-Asked i, base-same i none i.open_only)
    by_window (c ∷ raw) g = elim (Option-cases (parse_duration (c ∷ raw))) [
      | inl n ↦ absurd (none_made n g)
      | inr (w, q) ↦ windows w (some_made w q g)
    ]
      where
        none_made :
            parse_duration (c ∷ raw) ≡ none
            → windowed (base_filters i) (parse_duration (c ∷ raw)) ≡ some f
            → ⊥
        none_made n k = ground arith

        some_made :
            (w : ℤ)
            → parse_duration (c ∷ raw) ≡ some w
            → windowed (base_filters i) (parse_duration (c ∷ raw)) ≡ some f
            → record (base_filters i) { due_within = some w; open_only = true } ≡ f
        some_made w q k = ground arith
