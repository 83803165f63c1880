-- ===== src/Api/Filters/Enums.antt =====
-- internal/api/filters.go: the values that `validateEnums` lets through.
use dispute_router.Common.{
  ◌≡◌, ◌⊎◌, sym, inl, inr, true, List, [], ◌∷◌, All, length, none, arith, Bool-cases,
}
use dispute_router.Common.Bytes.{Bytes, codes, bytes_eq, eq-of-bytes_eq}
use dispute_router.Api.Builder.{is_one_of}
use dispute_router.Api.Filters.{
  Filters, validate_enums, all_known, known_states, known_kinds, known_networks,
}

-- The values that the schema lists for the column.
abbrev pub IsState : Bytes → Type 0
IsState v =
    (v ≡ codes "received")
    ⊎ (v ≡ codes "resolving")
    ⊎ (v ≡ codes "draft_ready")
    ⊎ (v ≡ codes "refunded")
    ⊎ (v ≡ codes "represented")
    ⊎ (v ≡ codes "won")
    ⊎ (v ≡ codes "lost")
    ⊎ (v ≡ codes "expired")

abbrev pub IsKind : Bytes → Type 0
IsKind v = (v ≡ codes "alert") ⊎ (v ≡ codes "chargeback")

abbrev pub IsNetwork : Bytes → Type 0
IsNetwork v =
    (v ≡ codes "visa") ⊎ (v ≡ codes "mastercard") ⊎ (v ≡ codes "amex") ⊎ (v ≡ codes "discover")

is_one_of-cons :
    (v k : Bytes) (ks : List Bytes)
    → is_one_of v (k ∷ ks) ≡ true
    → (v ≡ k) ⊎ (is_one_of v ks ≡ true)
unfolding is_one_of
is_one_of-cons v k ks h = elim (Bool-cases (bytes_eq k v)) [
  | inl e ↦ inl (sym (eq-of-bytes_eq k v e))
  | inr e ↦ inr (ground (arith, e))
]

is_one_of-nil : {P : Type 0} (v : Bytes) → is_one_of v [] ≡ true → P
unfolding is_one_of
is_one_of-nil v h = absurd (ground arith)

-- From each value of the list to a property of it.
abbrev pub Each : (Bytes → Type 0) → Bytes → List Bytes → Type 0
Each P v [] = Unit
Each P v (k ∷ ks) = (v ≡ k → P v) × Each P v ks

is_one_of-Each :
    (P : Bytes → Type 0) (v : Bytes) (ks : List Bytes) → Each P v ks → is_one_of v ks ≡ true → P v
is_one_of-Each P v [] f h = is_one_of-nil v h
is_one_of-Each P v (k ∷ ks) (f, fs) h = elim (is_one_of-cons v k ks h) [
  | inl e ↦ f e
  | inr q ↦ is_one_of-Each P v ks fs q
]

pub all_known-All :
    (P : Bytes → Type 0) (ks vs : List Bytes)
    → ((v : Bytes) → Each P v ks)
    → all_known ks vs ≡ true
    → All P vs
unfolding all_known
all_known-All P ks [] f h = tt
all_known-All P ks (v ∷ vs) f h =
    (is_one_of-Each P v ks (f v) (ground arith), all_known-All P ks vs f (ground arith))

pub known_states-IsState : (v : Bytes) → Each IsState v known_states
known_states-IsState v = (
  (λ e. inl e),
  (
    (λ e. inr (inl e)),
    (
      (λ e. inr (inr (inl e))),
      (
        (λ e. inr (inr (inr (inl e)))),
        (
          (λ e. inr (inr (inr (inr (inl e))))),
          (
            (λ e. inr (inr (inr (inr (inr (inl e)))))),
            (
              (λ e. inr (inr (inr (inr (inr (inr (inl e))))))),
              ((λ e. inr (inr (inr (inr (inr (inr (inr e))))))), tt),
            ),
          ),
        ),
      ),
    ),
  ),
)

pub known_networks-IsNetwork : (v : Bytes) → Each IsNetwork v known_networks
known_networks-IsNetwork v =
    ((λ e. inl e), ((λ e. inr (inl e)), ((λ e. inr (inr (inl e))), ((λ e. inr (inr (inr e))), tt))))

pub validate_enums-parts :
    (f : Filters)
    → validate_enums f ≡ none
    → (all_known known_states f.states ≡ true)
      × (all_known known_kinds f.kinds ≡ true)
      × (all_known known_networks f.networks ≡ true)
      × ((length f.currency_code ≡ 0) ⊎ (length f.currency_code ≡ 3))
unfolding validate_enums
validate_enums-parts f h = ground arith
