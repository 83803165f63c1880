-- ===== src/Llm/Embed/Places.antt =====
-- internal/llm/embed.go: the vectors of an answer stand at the indices that it names.
use dispute_router.Common.{
  ℕ, zero, suc, ◌≡◌, refl, ◌∙◌, ap, subst, ◌⊎◌, inl, inr, true, ◌&&◌, ltb, ◌==◌, List, [], ◌∷◌,
  Option, none, some, arith, length, get_elem?, Option-cases, Bool-cases,
}
use dispute_router.Common.Int.{ℤ, pos, negsuc}
use dispute_router.Llm.Embed.{
  Item, voyage_dimensions, set_at, no_vectors, place_at, place, all_filled, filled, vectors_of,
}

-- The answer has an element of the right width for place `i`, and `v` is its vector made unit length.
abbrev pub Shown : {V : Type 0} → (V → ℕ) → (V → V) → List (Item V) → ℕ → V → Type 0
Shown dimensions normalise [] i v = ⊥
Shown dimensions normalise (item ∷ items) i v =
    ((item.index ≡ pos i)
      × (dimensions item.embedding ≡ voyage_dimensions)
      × (v ≡ normalise item.embedding))
    ⊎ Shown dimensions normalise items i v

length-set_at :
    {V : Type 0} (i : ℕ) (v : V) (slots : List (Option V))
    → length (set_at i v slots) ≡ length slots
unfolding set_at
length-set_at i v [] = refl
length-set_at zero v (x ∷ xs) = refl
length-set_at (suc i) v (x ∷ xs) = ap suc (length-set_at i v xs)

set_at-some :
    {V : Type 0} (i j : ℕ) (v w : V) (slots : List (Option V))
    → get_elem? (set_at i v slots) j ≡ some (some w)
    → (get_elem? slots j ≡ some (some w)) ⊎ ((i ≡ j) × (w ≡ v))
unfolding set_at
set_at-some i j v w [] h = inl h
set_at-some zero zero v w (x ∷ xs) h = inr (refl, cc)
set_at-some zero (suc j) v w (x ∷ xs) h = inl h
set_at-some (suc i) zero v w (x ∷ xs) h = inl h
set_at-some (suc i) (suc j) v w (x ∷ xs) h = elim (set_at-some i j v w xs h) [
  | inl e ↦ inl e
  | inr (e, f) ↦ inr (ap suc e, f)
]

length-no_vectors : (V : Type 0) (n : ℕ) → length (no_vectors {V = V} n) ≡ n
unfolding no_vectors
length-no_vectors V zero = refl
length-no_vectors V (suc n) = ap suc (length-no_vectors V n)

no_vectors-empty :
    (V : Type 0) (n i : ℕ) (v : V) → ¬ (get_elem? (no_vectors {V = V} n) i ≡ some (some v))
unfolding no_vectors
no_vectors-empty V zero i v h = ground arith
no_vectors-empty V (suc n) zero v h = ground arith
no_vectors-empty V (suc n) (suc i) v h = no_vectors-empty V n i v h

-- What is put in place: nothing is lost or made up.
abbrev Placed :
    {V : Type 0} → (V → ℕ) → (V → V) → List (Item V) → List (Option V) → List (Option V) → Type 0
Placed {V} dimensions normalise items before after =
    (length after ≡ length before)
    × ((i : ℕ) (v : V)
        → get_elem? after i ≡ some (some v)
        → (get_elem? before i ≡ some (some v)) ⊎ Shown dimensions normalise items i v)

place_at-Placed :
    {V : Type 0} (dimensions : V → ℕ) (normalise : V → V) (item : Item V)
    (before after : List (Option V)) (z : ℤ)
    → item.index ≡ z
    → place_at dimensions normalise item.embedding before z ≡ some after
    → Placed dimensions normalise (item ∷ []) before after
unfolding place_at
place_at-Placed dimensions normalise item before after (negsuc n) q h = ground arith
place_at-Placed {V} dimensions normalise item before after (pos k) q h =
    elim (Bool-cases (ltb k (length before) && (dimensions item.embedding == voyage_dimensions))) [
      | inr e ↦ absurd (ground arith)
      | inl e ↦
          let same : set_at k (normalise item.embedding) before ≡ after = ground arith in
          subst (λ l. Placed dimensions normalise (item ∷ []) before l) same
            (
              length-set_at k (normalise item.embedding) before,
              λ i v g. from e i v (set_at-some k i (normalise item.embedding) v before g),
            )
    ]
  where
    from :
        (ltb k (length before) && (dimensions item.embedding == voyage_dimensions)) ≡ true
        → (i : ℕ) (v : V)
        → (get_elem? before i ≡ some (some v)) ⊎ ((k ≡ i) × (v ≡ normalise item.embedding))
        → (get_elem? before i ≡ some (some v)) ⊎ Shown dimensions normalise (item ∷ []) i v
    from e i v (inl g) = inl g
    from e i v (inr (same, is)) = inr (inl (q ∙ ap pos same, ground arith, is))

place-Placed :
    {V : Type 0} (dimensions : V → ℕ) (normalise : V → V) (items : List (Item V))
    (before after : List (Option V))
    → place dimensions normalise items before ≡ some after
    → Placed dimensions normalise items before after
unfolding place
place-Placed dimensions normalise [] before after h =
    let e : before ≡ after = ground arith in
    subst (λ l. Placed dimensions normalise [] before l) e (refl, λ i v g. inl g)
place-Placed {V} dimensions normalise (item ∷ items) before after h =
    elim (Option-cases (place_at dimensions normalise item.embedding before item.index)) [
      | inl e ↦ absurd (ground arith)
      | inr (mid, e) ↦
          both mid (place_at-Placed dimensions normalise item before mid item.index refl e)
            (place-Placed dimensions normalise items mid after (rw (e, place) at h))
    ]
  where
    both :
        (mid : List (Option V))
        → Placed dimensions normalise (item ∷ []) before mid
        → Placed dimensions normalise items mid after
        → Placed dimensions normalise (item ∷ items) before after
    both mid (m, one) (n, more) = (
      n ∙ m,
      λ i v g. elim (more i v g) [
        | inr s ↦ inr (inr s)
        | inl g' ↦ elim (one i v g') [
          | inl b ↦ inl b
          | inr (inl s) ↦ inr (inl s)
          | inr (inr s) ↦ absurd s
        ]
      ],
    )

all_filled-get :
    {V : Type 0} (slots : List (Option V)) (vs : List V)
    → all_filled slots ≡ some vs
    → (length vs ≡ length slots)
      × ((i : ℕ) (v : V) → get_elem? vs i ≡ some v → get_elem? slots i ≡ some (some v))
unfolding all_filled
all_filled-get [] [] h = (refl, λ i v g. ground arith)
all_filled-get [] (v ∷ vs) h = ground arith
all_filled-get (none ∷ slots) vs h = ground arith
all_filled-get {V} (some x ∷ slots) vs h = elim (Option-cases (all_filled slots)) [
  | inl e ↦ ground arith
  | inr (ws, e) ↦
      let (n, more) = all_filled-get slots ws e in
      let same : x ∷ ws ≡ vs = ground arith in
      subst (Right slots x) same (ap suc n, at_each ws more)
]
  where
    Right : List (Option V) → V → List V → Type 0
    Right slots x vs =
        (length vs ≡ suc (length slots))
        × ((i : ℕ) (v : V) → get_elem? vs i ≡ some v → get_elem? (some x ∷ slots) i ≡ some (some v))

    at_each :
        (ws : List V)
        → ((i : ℕ) (v : V) → get_elem? ws i ≡ some v → get_elem? slots i ≡ some (some v))
        → (i : ℕ) (v : V) → get_elem? (x ∷ ws) i ≡ some v
        → get_elem? (some x ∷ slots) i ≡ some (some v)
    at_each ws more zero v g = ground arith
    at_each ws more (suc i) v g = more i v g

-- When an answer for `n` texts is taken, there are `n` vectors, and each is the unit-length form of an element of the
-- answer that names its place and has the width of the schema.
pub vectors_of_lem :
    {V : Type 0} (dimensions : V → ℕ) (normalise : V → V) (n : ℕ) (items : List (Item V))
    (vs : List V)
    → vectors_of dimensions normalise n items ≡ some vs
    → (length vs ≡ n)
      × ((i : ℕ) (v : V) → get_elem? vs i ≡ some v → Shown dimensions normalise items i v)
unfolding vectors_of filled
vectors_of_lem {V} dimensions normalise n items vs h =
    elim (Option-cases (place dimensions normalise items (no_vectors n))) [
      | inl e ↦ absurd (none_placed e)
      | inr (slots, e) ↦
          let (m, placed) = place-Placed dimensions normalise items (no_vectors n) slots e in
          let (k, get) = all_filled-get slots vs (some_placed slots e) in
          (
            k ∙ m ∙ length-no_vectors V n,
            λ i v g. elim (placed i v (get i v g)) [
              | inl b ↦ absurd (no_vectors-empty V n i v b)
              | inr s ↦ s
            ],
          )
    ]
  where
    none_placed : place dimensions normalise items (no_vectors n) ≡ none → ⊥
    none_placed e = ground arith

    some_placed :
        (slots : List (Option V))
        → place dimensions normalise items (no_vectors n) ≡ some slots
        → all_filled slots ≡ some vs
    some_placed slots e = ground arith
