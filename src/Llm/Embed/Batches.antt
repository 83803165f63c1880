-- ===== src/Llm/Embed/Batches.antt =====
-- internal/llm/embed.go: `Embed` splits the texts and joins the vectors.
use dispute_router.Common.{
  ℕ, zero, suc, ◌≤◌, subst, List, [], ◌∷◌, ◌++◌, Option, none, some, arith, length, take, drop,
  length-take, length-drop, take-append-drop,
}
use dispute_router.Common.Bytes.{Bytes}
use dispute_router.Llm.Embed.{voyage_max_batch, joined, then_more, embed_from, embed}

-- Each text with the vector at its place.
abbrev pub Pairwise : {A : Type 0} {V : Type 0} → (A → V → Type 0) → List A → List V → Type 0
Pairwise R [] [] = Unit
Pairwise R (a ∷ xs) (v ∷ vs) = R a v × Pairwise R xs vs
Pairwise R [] (v ∷ vs) = ⊥
Pairwise R (a ∷ xs) [] = ⊥

Pairwise-append :
    {A : Type 0} {V : Type 0} (R : A → V → Type 0) (xs ys : List A) (vs ws : List V)
    → Pairwise R xs vs
    → Pairwise R ys ws
    → Pairwise R (xs ++ ys) (vs ++ ws)
Pairwise-append R [] ys [] ws h k = k
Pairwise-append R [] ys (v ∷ vs) ws h k = absurd h
Pairwise-append R (x ∷ xs) ys [] ws h k = absurd h
Pairwise-append R (x ∷ xs) ys (v ∷ vs) ws (r, h) k = (r, Pairwise-append R xs ys vs ws h k)

-- What an embedding of texts shows: the vectors of the texts, or `P` when it fails.
abbrev pub Embedded :
    {V : Type 0} → (Bytes → V → Type 0) → Type 0 → List Bytes → Option (List V) → Type 0
Embedded R P texts none = P
Embedded R P texts (some vs) = Pairwise R texts vs

then_more-Embedded :
    {V : Type 0} (R : Bytes → V → Type 0) (P : Type 0) (xs ys : List Bytes) (a b : Option (List V))
    → Embedded R P xs a
    → Embedded R P ys b
    → Embedded R P (xs ++ ys) (then_more a b)
unfolding then_more joined
then_more-Embedded R P xs ys none b h k = h
then_more-Embedded R P xs ys (some vs) none h k = k
then_more-Embedded R P xs ys (some vs) (some ws) h k = Pairwise-append R xs ys vs ws h k

embed_from-Embedded :
    {V : Type 0} (R : Bytes → V → Type 0) (P : Type 0) (batch : List Bytes → Option (List V))
    (fuel : ℕ) (texts : List Bytes)
    → length texts ≤ fuel
    → ((some_texts : List Bytes)
        → length some_texts ≤ voyage_max_batch
        → Embedded R P some_texts (batch some_texts))
    → Embedded R P texts (embed_from batch fuel texts)
unfolding embed_from
embed_from-Embedded R P batch fuel [] le h = tt
embed_from-Embedded R P batch zero (t ∷ texts) le h = absurd (omega arith)
embed_from-Embedded R P batch (suc fuel) (t ∷ texts) le h =
    let all = t ∷ texts in
    let short : length (take voyage_max_batch all) ≤ voyage_max_batch =
      omega (arith, length-take {0} voyage_max_batch all) in
    let fits : length (drop voyage_max_batch all) ≤ fuel =
      omega (arith, length-drop {0} voyage_max_batch all) in
    let rest = embed_from-Embedded R P batch fuel (drop voyage_max_batch all) fits h in
    subst (λ (l : List Bytes). Embedded R P l (embed_from batch (suc fuel) (t ∷ texts)))
      (take-append-drop voyage_max_batch all)
      (then_more-Embedded R P (take voyage_max_batch all) (drop voyage_max_batch all)
        (batch (take voyage_max_batch all)) (embed_from batch fuel (drop voyage_max_batch all))
        (h (take voyage_max_batch all) short) rest)

-- Where every call for 128 texts or fewer gives each text a vector that `R` accepts, or fails and shows `P`, so
-- does the embedding of any number of texts: each is given its own vector, in order, and it fails only as a call
-- did. With an empty `P`, calls that all succeed make it succeed.
pub embed-Embedded :
    {V : Type 0} (R : Bytes → V → Type 0) (P : Type 0) (batch : List Bytes → Option (List V))
    (texts : List Bytes)
    → ((some_texts : List Bytes)
        → length some_texts ≤ voyage_max_batch
        → Embedded R P some_texts (batch some_texts))
    → Embedded R P texts (embed batch texts)
unfolding embed
embed-Embedded R P batch texts h =
    embed_from-Embedded R P batch (length texts) texts (omega arith) h
