-- ===== src/Agent/Facts/Fence.antt =====
-- internal/agent/facts.go: quoted text cannot close its own block.
use dispute_router.Common.{
  ℕ, zero, suc, ◌+◌, ◌-◌, ◌≤◌, ◌<◌, ◌≡◌, refl, ◌⊎◌, inl, inr, ◌∙◌, sym, ap, Bool, true, false, ◌&&◌,
  [], ◌∷◌, ◌++◌, ◌==◌, ltb, length, length-append, take, if◌then◌else◌, arith, All, Bool-cases,
  append_assoc,
}
use dispute_router.Common.Bytes.{Bytes, codes}
use dispute_router.Common.Text.{starts_with}
use dispute_router.Agent.Facts.{
  replace_from, replace_all, removed_mark, ellipsis, opening, closing, cut, fence,
}

-- At how many places of a text a marker stands.
unfoldable pub occurrences : Bytes → Bytes → ℕ
occurrences m [] = 0
occurrences m (c ∷ t) = (if starts_with m (c ∷ t) then 1 else 0) + occurrences m t

occurrences_none : (m : Bytes) → occurrences m [] ≡ 0
unfolding occurrences
occurrences_none m = refl

-- A character that a marker does not hold.
abbrev pub Lacks : Bytes → ℕ → Type 0
Lacks m c = All (λ a. (a == c) ≡ false) m

starts_with-stop :
    (m t u : Bytes) (c : ℕ) → Lacks m c → starts_with m (t ++ (c ∷ u)) ≡ starts_with m t
unfolding starts_with
starts_with-stop [] t u c h = refl
starts_with-stop (a ∷ m) [] u c (e, h) = rw e refl
starts_with-stop (a ∷ m) (x ∷ t) u c (e, h) = ap (λ b. a == x && b) (starts_with-stop m t u c h)

-- A character that the marker does not hold parts the places before it from those after it.
occurrences-stop :
    (a : ℕ) (m t u : Bytes) (c : ℕ)
    → Lacks (a ∷ m) c
    → occurrences (a ∷ m) (t ++ (c ∷ u)) ≡ occurrences (a ∷ m) t + occurrences (a ∷ m) u
unfolding occurrences
occurrences-stop a m [] u c (e, h) = unfold starts_with in rw e refl
occurrences-stop a m (x ∷ t) u c h =
    rw (starts_with-stop (a ∷ m) (x ∷ t) u c h) (omega (arith, occurrences-stop a m t u c h))

starts_with-take : (m t : Bytes) (n : ℕ) → starts_with m (take n t) ≡ true → starts_with m t ≡ true
unfolding starts_with
starts_with-take [] t n h = refl
starts_with-take (a ∷ m) t zero h = ground arith
starts_with-take (a ∷ m) [] (suc n) h = ground arith
starts_with-take (a ∷ m) (x ∷ t) (suc n) h = ground (arith, starts_with-take m t n)

occurrences-take : (m t : Bytes) (n : ℕ) → occurrences m (take n t) ≤ occurrences m t
unfolding occurrences
occurrences-take m t zero = omega arith
occurrences-take m [] (suc n) = omega arith
occurrences-take m (x ∷ t) (suc n) =
    ground (arith, occurrences-take m t n, starts_with-take m (x ∷ t) (suc n))

-- A replacement none of whose characters the marker holds.
abbrev pub Foreign : Bytes → Bytes → Type 0
Foreign m new = All (Lacks m) new

both : (p q : Bool) → (p && q) ≡ true → (p ≡ true) × (q ≡ true)
both p q h = ground arith

rests : (a : ℕ) (m : Bytes) (x : ℕ) (new : Bytes) → Foreign (a ∷ m) (x ∷ new) → Foreign m (x ∷ new)
rests a m x new ((e, g), f) = (g, others new f)
  where
    others : (new : Bytes) → Foreign (a ∷ m) new → Foreign m new
    others [] f = tt
    others (y ∷ ys) ((e, g), f) = (g, others ys f)

starts_with-replace_from :
    (old new m t : Bytes)
    → Foreign m new
    → (0 < length new)
    → starts_with m (replace_from old new 0 t) ≡ true
    → starts_with m t ≡ true
unfolding starts_with replace_from
starts_with-replace_from old new [] t f p h = refl
starts_with-replace_from old new (a ∷ m) [] f p h = ground arith
starts_with-replace_from old [] (a ∷ m) (c ∷ t) f p h = absurd (omega arith)
starts_with-replace_from old (x ∷ new) (a ∷ m) (c ∷ t) ((e, g), f) p h =
    elim (Bool-cases (starts_with old (c ∷ t))) [
      | inl q ↦ absurd (found (rw (q, replace_from) at h))
      | inr q ↦
          let (here, later) = both (a == c) _ (rw (q, replace_from) at h) in
          rw here (starts_with-replace_from old (x ∷ new) m t (rests a m x new ((e, g), f)) p later)
    ]
  where
    found :
        (a == x && starts_with m (new ++ replace_from old (x ∷ new) (length old - 1) t)) ≡ true → ⊥
    found k = ground arith

occurrences-append-Foreign :
    (a : ℕ) (m new u : Bytes)
    → Foreign (a ∷ m) new
    → occurrences (a ∷ m) (new ++ u) ≡ occurrences (a ∷ m) u
unfolding occurrences starts_with
occurrences-append-Foreign a m [] u f = refl
occurrences-append-Foreign a m (x ∷ new) u ((e, g), f) =
    rw e (omega (arith, occurrences-append-Foreign a m new u f))

not-started :
    (a : ℕ) (m new : Bytes) (c : ℕ) (t : Bytes)
    → Foreign (a ∷ m) new
    → 0 < length new
    → starts_with (a ∷ m) (c ∷ t) ≡ false
    → starts_with (a ∷ m) (c ∷ replace_from (a ∷ m) new zero t) ≡ false
unfolding replace_from
not-started a m new c t f p q =
    elim (Bool-cases (starts_with (a ∷ m) (c ∷ replace_from (a ∷ m) new zero t))) [
      | inr s ↦ s
      | inl s ↦
          let through = starts_with-replace_from (a ∷ m) new (a ∷ m) (c ∷ t) f p in
          let whole = rw (q, replace_from) at through in absurd (impossible (whole s))
    ]
  where
    impossible : false ≡ true → ⊥
    impossible k = ground arith

-- After the replacement the marker stands nowhere.
occurrences-replace_from :
    (a : ℕ) (m new : Bytes) (skip : ℕ) (t : Bytes)
    → Foreign (a ∷ m) new
    → 0 < length new
    → occurrences (a ∷ m) (replace_from (a ∷ m) new skip t) ≡ 0
unfolding replace_from occurrences
occurrences-replace_from a m new skip [] f p = refl
occurrences-replace_from a m new (suc skip) (c ∷ t) f p =
    occurrences-replace_from a m new skip t f p
occurrences-replace_from a m new zero (c ∷ t) f p =
    let passed = occurrences-replace_from a m new zero t f p in
    let found = occurrences-replace_from a m new (length (a ∷ m) - 1) t f p in
    elim (Bool-cases (starts_with (a ∷ m) (c ∷ t))) [
      | inl q ↦ rw q (
          occurrences-append-Foreign a m new (replace_from (a ∷ m) new (length (a ∷ m) - 1) t) f
          ∙ found)
      | inr q ↦ rw (q, not-started a m new c t f p q) (omega (arith, passed))
    ]

starts_with-long : (m t : Bytes) → starts_with m t ≡ true → length m ≤ length t
unfolding starts_with
starts_with-long [] t h = omega arith
starts_with-long (a ∷ m) [] h = ground arith
starts_with-long (a ∷ m) (x ∷ t) h =
    let (e, k) = both (a == x) _ h in omega (arith, starts_with-long m t k)

starts_with-itself : (m : Bytes) → starts_with m m ≡ true
unfolding starts_with
starts_with-itself [] = refl
starts_with-itself (a ∷ m) = ground (arith, starts_with-itself m)

-- A text shorter than a marker does not hold it; a marker holds itself once.
occurrences-short : (m t : Bytes) → length t < length m → occurrences m t ≡ 0
unfolding occurrences
occurrences-short m [] h = refl
occurrences-short m (c ∷ t) h =
    let rest = occurrences-short m t (omega arith) in
    elim (Bool-cases (starts_with m (c ∷ t))) [
      | inl e ↦ absurd (omega (arith, starts_with-long m (c ∷ t) e))
      | inr e ↦ rw e (omega (arith, rest))
    ]

occurrences-itself : (a : ℕ) (m : Bytes) → occurrences (a ∷ m) (a ∷ m) ≡ 1
unfolding occurrences
occurrences-itself a m =
    rw (starts_with-itself (a ∷ m)) (omega (arith, occurrences-short (a ∷ m) m (omega arith)))

occurrences-cut :
    (a : ℕ) (m t : Bytes) (max_runes : ℕ)
    → Lacks (a ∷ m) ellipsis
    → occurrences (a ∷ m) t ≡ 0
    → occurrences (a ∷ m) (cut max_runes t) ≡ 0
unfolding cut
occurrences-cut a m t max_runes l h =
    elim (Bool-cases (ltb 0 max_runes && ltb max_runes (length t))) [
      | inr e ↦ rw e h
      | inl e ↦ rw e (
          omega (
            arith,
            occurrences-stop a m (take max_runes t) [] ellipsis l,
            occurrences-take (a ∷ m) t max_runes,
            occurrences_none (a ∷ m),
          ))
    ]

-- A label whose closing marker holds none of the characters that the fence puts around it and in its place.
abbrev pub Quotable : Bytes → Type 0
Quotable label =
    (0 < length label)
    × Foreign (closing label) removed_mark
    × Lacks (closing label) b'<'
    × Lacks (closing label) b'\n'
    × Lacks (closing label) ellipsis

abbrev pub ending : Bytes → Bytes
ending label = b'\n' ∷ (closing label ++ (b'\n' ∷ []))

-- Whatever the text and the limit, for a label whose closing marker holds none of the characters that a fence is made of: the
-- block ends in the closing marker on a line of its own, and the marker stands nowhere before that.
pub fence-closed :
    (label text : Bytes) (max_runes : ℕ)
    → Quotable label
    → (body : Bytes) × (fence label text max_runes ≡ body ++ ending label)
      × (occurrences (closing label) body ≡ 0)
      × (occurrences (closing label) (fence label text max_runes) ≡ 1)
unfolding fence replace_all
fence-closed [] text max_runes (p, foreign, lt, nl, dots) = absurd (omega arith)
fence-closed (a ∷ label) text max_runes (p, foreign, lt, nl, dots) =
    let m = label ++ codes ">>>" in
    let inner = cut max_runes (replace_from (a ∷ m) removed_mark 0 text) in
    let body = opening (a ∷ label) ++ (b'\n' ∷ inner) in
    let clean =
      occurrences-cut a m (replace_from (a ∷ m) removed_mark 0 text) max_runes dots
        (occurrences-replace_from a m removed_mark 0 text foreign (omega arith)) in
    let opens =
      occurrences-append-Foreign a m (codes "<<<") (a ∷ label) (lt, (lt, (lt, tt)))
      ∙ occurrences-short (a ∷ m) (a ∷ label)
          (omega (arith, length-append {0} label (codes ">>>"))) in
    let none_before : occurrences (a ∷ m) body ≡ 0 =
      omega (arith, occurrences-stop a m (opening (a ∷ label)) inner b'\n' nl, opens, clean) in
    let whole : opening (a ∷ label) ++ (b'\n' ∷ (inner ++ ending (a ∷ label)))
        ≡ body ++ ending (a ∷ label) =
      sym (append_assoc (opening (a ∷ label)) (b'\n' ∷ inner) (ending (a ∷ label))) in
    let last : occurrences (a ∷ m) ((a ∷ m) ++ (b'\n' ∷ [])) ≡ 1 = omega (
      arith,
      occurrences-stop a m (a ∷ m) [] b'\n' nl,
      occurrences-itself a m,
      occurrences_none (a ∷ m),
    ) in
    let counted : occurrences (a ∷ m) (body ++ ending (a ∷ label)) ≡ 1 =
      omega
        (arith, occurrences-stop a m body ((a ∷ m) ++ (b'\n' ∷ [])) b'\n' nl, none_before, last) in
    (body, whole, none_before, ap (occurrences (a ∷ m)) whole ∙ counted)

occurrences-zero :
    (m : Bytes) (c : ℕ) (t : Bytes)
    → occurrences m (c ∷ t) ≡ 0
    → (starts_with m (c ∷ t) ≡ false) × (occurrences m t ≡ 0)
unfolding occurrences
occurrences-zero m c t h = elim (Bool-cases (starts_with m (c ∷ t))) [
  | inl e ↦ absurd (some_found (rw e at h))
  | inr e ↦ (e, let k : 0 + occurrences m t ≡ 0 = rw e at h in omega arith)
]
  where
    some_found : 1 + occurrences m t ≡ 0 → ⊥
    some_found k = omega arith

replace_from-none : (old new t : Bytes) → occurrences old t ≡ 0 → replace_from old new 0 t ≡ t
unfolding replace_from
replace_from-none old new [] h = refl
replace_from-none old new (c ∷ t) h =
    let (e, k) = occurrences-zero old c t h in
    rw e (ap (λ (l : Bytes). c ∷ l) (replace_from-none old new t k))

-- A text that does not hold the closing marker and is within the limit, if there is one, is quoted as it is.
pub fence-verbatim :
    (label text : Bytes) (max_runes : ℕ)
    → occurrences (closing label) text ≡ 0
    → (max_runes ≡ 0) ⊎ (length text ≤ max_runes)
    → fence label text max_runes ≡ opening label ++ (b'\n' ∷ (text ++ ending label))
unfolding fence replace_all cut
fence-verbatim label text max_runes h fits =
    rw (replace_from-none (closing label) removed_mark text h) (rw (whole fits) refl)
  where
    whole :
        (max_runes ≡ 0) ⊎ (length text ≤ max_runes)
        → (ltb 0 max_runes && ltb max_runes (length text)) ≡ false
    whole (inl e) = ground arith
    whole (inr le) = ground arith
