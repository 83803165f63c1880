-- ===== src/Worker/Deadlines/Index.antt =====
-- internal/worker/deadlines.go: the index as a map from members to deadlines.
use dispute_router.Common.{
  ℕ, zero, suc, ◌≡◌, refl, sym, ◌∙◌, ap, ◌⊎◌, inl, inr, ◌<◌, ◌≤◌, Bool, true, false, not, [], ◌∷◌,
  Option, none, some, arith, All, length, dec_le, take, filter_where, Bool-cases, leb,
  if◌then◌else◌,
}
use dispute_router.Common.Bytes.{bytes_eq_refl, eq-of-bytes_eq}
use dispute_router.Worker.Deadlines.{
  Member, of_id, junk, ZEntry, ZSet, member_eq, insert_sorted, zrem, zadd, is_in, due, claim_due,
}

-- The abstract view: the deadline of a member, if it is in the set.
unfoldable pub score_of : Member → ZSet → Option ℕ
score_of m [] = none
score_of m (x ∷ xs) = if member_eq x.member m then some x.score else score_of m xs

member_eq_sound : (a b : Member) → member_eq a b ≡ true → a ≡ b
unfolding member_eq
member_eq_sound (of_id a) (of_id b) h = ground arith
member_eq_sound (junk s) (junk t) h = ap junk (eq-of-bytes_eq s t h)
member_eq_sound (of_id a) (junk t) h = ground arith
member_eq_sound (junk s) (of_id b) h = ground arith

member_eq_refl : (a : Member) → member_eq a a ≡ true
unfolding member_eq
member_eq_refl (of_id a) = ground arith
member_eq_refl (junk s) = bytes_eq_refl s

member_eq-left : (a b k : Member) → member_eq a b ≡ true → member_eq a k ≡ member_eq b k
member_eq-left a b k h = ap (λ m. member_eq m k) (member_eq_sound a b h)

member_eq-join :
    (a b k : Member) → member_eq a k ≡ true → member_eq b k ≡ true → member_eq a b ≡ true
member_eq-join a b k h g = rw (member_eq_sound a k h, member_eq_sound b k g, member_eq_refl k)

score_of-zrem :
    (k m : Member) (z : ZSet)
    → score_of k (zrem m z) ≡ (if member_eq m k then none else score_of k z)
unfolding score_of zrem filter_where
score_of-zrem k m [] = ground arith
score_of-zrem k m (x ∷ xs) =
    ground (arith, score_of-zrem k m xs, member_eq-left x.member m k, member_eq-join x.member m k)

score_of-insert :
    (k : Member) (e : ZEntry) (z : ZSet)
    → score_of e.member z ≡ none
    → score_of k (insert_sorted e z) ≡ (if member_eq e.member k then some e.score else score_of k z)
unfolding score_of insert_sorted
score_of-insert k e [] h = refl
score_of-insert k e (x ∷ xs) h =
    ground (arith, score_of-insert k e xs, member_eq-join x.member e.member k)

-- ZADD: the member has the new score, and every other keeps its own.
pub score_of-zadd :
    (k : Member) (e : ZEntry) (z : ZSet)
    → score_of k (zadd e z) ≡ (if member_eq e.member k then some e.score else score_of k z)
unfolding zadd
score_of-zadd k e z = ground (
  arith,
  score_of-insert k e (zrem e.member z),
  score_of-zrem e.member e.member z,
  score_of-zrem k e.member z,
  member_eq_refl e.member,
)

-- What the script leaves behind.
score_of-filter_in :
    (k : Member) (ids z : ZSet)
    → score_of k (filter_where (λ x. not (is_in x.member ids)) z)
      ≡ (if is_in k ids then none else score_of k z)
unfolding score_of filter_where
score_of-filter_in k ids [] = ground arith
score_of-filter_in k ids (x ∷ xs) =
    ground (arith, score_of-filter_in k ids xs, ap (λ m. is_in m ids), member_eq_sound x.member k)

filter-due :
    (upto : ℕ) (z : ZSet) → All (λ x. x.score ≤ upto) (filter_where (λ x. leb x.score upto) z)
unfolding filter_where
filter-due upto [] = tt
filter-due upto (x ∷ xs) = ground (arith, filter-due upto xs)

take-All : (P : ZEntry → Type 0) (n : ℕ) (z : ZSet) → All P z → All P (take n z)
take-All P zero z h = tt
take-All P (suc n) [] h = tt
take-All P (suc n) (x ∷ xs) (p, h) = (p, take-All P n xs h)

length-take-le : (n : ℕ) (z : ZSet) → length (take n z) ≤ n
length-take-le zero z = omega arith
length-take-le (suc n) [] = omega arith
length-take-le (suc n) (x ∷ xs) = omega (arith, length-take-le n xs)

take-short : (n : ℕ) (z : ZSet) → length (take n z) < n → take n z ≡ z
take-short zero z h = elim h [ ]
take-short (suc n) [] h = refl
take-short (suc n) (x ∷ xs) h = rw (take-short n xs (omega arith))

is_in-take : (k : Member) (n : ℕ) (z : ZSet) → is_in k z ≡ false → is_in k (take n z) ≡ false
unfolding is_in
is_in-take k zero z h = refl
is_in-take k (suc n) [] h = refl
is_in-take k (suc n) (x ∷ xs) h = ground (arith, is_in-take k n xs)

is_in-filter :
    (k : Member) (p : ZEntry → Bool) (z : ZSet)
    → is_in k z ≡ false
    → is_in k (filter_where p z) ≡ false
unfolding is_in filter_where
is_in-filter k p [] h = refl
is_in-filter k p (x ∷ xs) h = ground (arith, is_in-filter k p xs)

absent : (k : Member) (z : ZSet) → score_of k z ≡ none → is_in k z ≡ false
unfolding is_in score_of
absent k [] h = refl
absent k (x ∷ xs) h = ground (arith, absent k xs)

-- A member that is due is among those that are.
due-is_in :
    (k : Member) (upto s : ℕ) (z : ZSet)
    → score_of k z ≡ some s
    → s ≤ upto
    → is_in k (filter_where (λ x. leb x.score upto) z) ≡ true
unfolding is_in score_of filter_where
due-is_in k upto s [] h l = ground arith
due-is_in k upto s (x ∷ xs) h l = ground (arith, due-is_in k upto s xs)

module _ (upto limit : ℕ) (z : ZSet) where
  -- A claim returns at most `limit` members, all of them due, and takes away exactly those: every
  -- other keeps its deadline, and no later claim on what is left returns one of them again.
  pub claim_due-takes :
      (k : Member) (upto' limit' : ℕ)
      → let (ids, rest) = claim_due upto limit z in
        (length ids ≤ limit)
        × All (λ x. x.score ≤ upto) ids
        × (score_of k rest ≡ (if is_in k ids then none else score_of k z))
        × ((is_in k ids ≡ false) ⊎ (is_in k (claim_due upto' limit' rest).0 ≡ false))
  unfolding claim_due due
  claim_due-takes k upto' limit' = (
    length-take-le limit _,
    take-All _ limit _ (filter-due upto z),
    left,
    apart (Bool-cases (is_in k ids)),
  )
    where
      ids : ZSet
      ids = due upto limit z

      rest : ZSet
      rest = filter_where (λ x. not (is_in x.member ids)) z

      left : score_of k rest ≡ (if is_in k ids then none else score_of k z)
      left = score_of-filter_in k ids z

      apart :
          (is_in k ids ≡ true) ⊎ (is_in k ids ≡ false)
          → (is_in k ids ≡ false) ⊎ (is_in k (due upto' limit' rest) ≡ false)
      apart (inr e) = inl e
      apart (inl e) =
          inr (is_in-take k limit' _ (is_in-filter k _ rest (absent k rest (rw e at left))))

  -- A claim that returns fewer than `limit` leaves nothing that is due.
  pub claim_due-exhausts :
      (k : Member) (s : ℕ)
      → length (claim_due upto limit z).0 < limit
      → score_of k (claim_due upto limit z).1 ≡ some s
      → upto < s
  unfolding claim_due due
  claim_due-exhausts k s short h = late (dec_le s upto)
    where
      ids : ZSet
      ids = take limit (filter_where (λ x. leb x.score upto) z)

      here : (if is_in k ids then none else score_of k z) ≡ some s
      here = sym (score_of-filter_in k ids z) ∙ h

      late : Dec (s ≤ upto) → upto < s
      late (no p) = omega arith
      late (yes p) =
          absurd
            (ground (arith, here, due-is_in k upto s z, ap (is_in k) (take-short limit _ short)))
