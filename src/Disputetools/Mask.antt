-- ===== src/Disputetools/Mask.antt =====
-- internal/disputetools/tools.go: what a masked address still shows.
use dispute_router.Common.{ℕ, ◌≡◌, refl, false, [], ◌∷◌, ◌++◌, none, some, ◌==◌, All}
use dispute_router.Common.Bytes.{Bytes, codes}
use dispute_router.Disputetools.{split_at_last, masked, mask_email}

-- No "@" in it.
abbrev pub Plain : Bytes → Type 0
Plain s = All (λ c. (c == b'@') ≡ false) s

split_at_last-Plain : (s : Bytes) → Plain s → split_at_last s ≡ none
unfolding split_at_last
split_at_last-Plain [] h = refl
split_at_last-Plain (c ∷ s) (e, h) = rw (split_at_last-Plain s h, e) refl

split_at_last-join :
    (local domain : Bytes)
    → Plain domain
    → split_at_last (local ++ (b'@' ∷ domain)) ≡ some (local, domain)
unfolding split_at_last
split_at_last-join [] domain h = rw (split_at_last-Plain domain h) refl
split_at_last-join (c ∷ local) domain h = rw (split_at_last-join local domain h) refl

-- Of a local part of two characters or more the masked address shows the first alone: two addresses at one domain whose local
-- parts start alike and go on in any way are masked alike.
pub mask_email-hides :
    (first a b : ℕ) (s t domain : Bytes)
    → Plain domain
    → mask_email ((first ∷ a ∷ s) ++ (b'@' ∷ domain))
      ≡ mask_email ((first ∷ b ∷ t) ++ (b'@' ∷ domain))
unfolding mask_email masked
mask_email-hides first a b s t domain h =
    rw (split_at_last-join (first ∷ a ∷ s) domain h, split_at_last-join (first ∷ b ∷ t) domain h)
      refl

-- An address without an "@", or with nothing in front of its only one, is masked whole.
pub mask_email-whole :
    (s : Bytes) → Plain s → (mask_email s ≡ codes "***") × (mask_email (b'@' ∷ s) ≡ codes "***")
unfolding mask_email masked split_at_last
mask_email-whole s h = (rw (split_at_last-Plain s h) refl, rw (split_at_last-Plain s h) refl)
