-- ===== src/Llm/Embed.antt =====
-- internal/llm/embed.go: texts embedded in batches, and one answer's vectors put in their places. What
-- comes back for a batch, and the arithmetic that makes a vector unit length, are parameters.
pub mod Batches
pub mod Places
use dispute_router.Common.{
  ℕ, zero, suc, ◌+◌, ◌-◌, ◌≤◌, ◌<◌, ◌≡◌, refl, Bool, true, false, not, ◌&&◌, ◌||◌, List, [], ◌∷◌,
  ◌++◌, Option, none, some, ltb, leb, ◌==◌, arith, if◌then◌else◌, length, take, drop, length-take,
  length-drop, take-append-drop, Bool-cases, Option-cases, get_elem?,
}
use dispute_router.Common.Bytes.{Bytes}
use dispute_router.Common.Int.{ℤ, pos, negsuc}

abbrev pub voyage_max_batch : ℕ
voyage_max_batch = 128

abbrev pub voyage_dimensions : ℕ
voyage_dimensions = 1024

-- One element of an answer: `V` is a vector of floats.
pub record Item {ℓ} (V : Type ℓ) : Type ℓ where
  pub index : ℤ
  pub embedding : V

-- vectors[i] = v; an index past the end does not come this far.
unfoldable pub set_at {ℓ} : {V : Type ℓ} → ℕ → V → List (Option V) → List (Option V)
set_at i v [] = []
set_at zero v (x ∷ xs) = some v ∷ xs
set_at (suc i) v (x ∷ xs) = x ∷ set_at i v xs

unfoldable pub no_vectors {ℓ} : {V : Type ℓ} → ℕ → List (Option V)
no_vectors zero = []
no_vectors (suc n) = none ∷ no_vectors n

-- One element, checked and put in its place.
unfoldable pub place_at {ℓ} :
    {V : Type ℓ} → (V → ℕ) → (V → V) → V → List (Option V) → ℤ → Option (List (Option V))
unfolding set_at
place_at dimensions normalise v slots (negsuc n) = none
place_at dimensions normalise v slots (pos i) =
    if ltb i (length slots) && (dimensions v == voyage_dimensions)
    then some (set_at i (normalise v) slots)
    else none

-- The loop over the elements.
unfoldable pub place {ℓ} :
    {V : Type ℓ} → (V → ℕ) → (V → V) → List (Item V) → List (Option V) → Option (List (Option V))
unfolding place_at
place dimensions normalise [] slots = some slots
place dimensions normalise (item ∷ items) slots =
    elim (place_at dimensions normalise item.embedding slots item.index) [
      | none ↦ none
      | some slots' ↦ place dimensions normalise items slots'
    ]

-- The last loop: no place is empty.
unfoldable pub all_filled {ℓ} : {V : Type ℓ} → List (Option V) → Option (List V)
all_filled [] = some []
all_filled (none ∷ slots) = none
all_filled (some v ∷ slots) = elim (all_filled slots) [ none ↦ none | some vs ↦ some (v ∷ vs) ]

unfoldable pub filled {ℓ} : {V : Type ℓ} → Option (List (Option V)) → Option (List V)
unfolding all_filled
filled none = none
filled (some slots) = all_filled slots

-- The end of `batch`, from the decoded answer for `n` texts.
unfoldable pub vectors_of {ℓ} :
    {V : Type ℓ} → (V → ℕ) → (V → V) → ℕ → List (Item V) → Option (List V)
unfolding place filled no_vectors
vectors_of dimensions normalise n items =
    if length items == n then filled (place dimensions normalise items (no_vectors n)) else none

unfoldable pub joined {ℓ} : {V : Type ℓ} → List V → Option (List V) → Option (List V)
joined vectors none = none
joined vectors (some rest) = some (vectors ++ rest)

unfoldable pub then_more {ℓ} : {V : Type ℓ} → Option (List V) → Option (List V) → Option (List V)
unfolding joined
then_more none more = none
then_more (some vectors) more = joined vectors more

-- The loop of `Embed`; `fuel` bounds the batches, of which there are no more than texts.
unfoldable pub embed_from {ℓ} :
    {V : Type ℓ} → (List Bytes → Option (List V)) → ℕ → List Bytes → Option (List V)
unfolding then_more
embed_from batch fuel [] = some []
embed_from batch zero (t ∷ texts) = none
embed_from batch (suc fuel) (t ∷ texts) =
    then_more (batch (take voyage_max_batch (t ∷ texts)))
      (embed_from batch fuel (drop voyage_max_batch (t ∷ texts)))

-- `Embed`.
unfoldable pub embed {ℓ} :
    {V : Type ℓ} → (List Bytes → Option (List V)) → List Bytes → Option (List V)
unfolding embed_from
embed batch texts = embed_from batch (length texts) texts
