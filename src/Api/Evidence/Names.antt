-- ===== src/Api/Evidence/Names.antt =====
-- internal/api/evidence.go: what is left of a file's name.
use dispute_router.Common.{
  ℕ, zero, suc, ◌≤◌, ◌≡◌, refl, Bool, true, false, ◌||◌, inl, inr, [], ◌∷◌, length, take,
  length-take, arith, All, Bool-cases,
}
use dispute_router.Common.Bytes.{Bytes, codes, bytes_eq}
use dispute_router.Common.Text.{trim_space}
use dispute_router.Api.Evidence.{
  ended, trim_end, trim_start, path_base, is_kept, restricted, is_edge, max_name, cleaned,
  safe_name,
}

abbrev pub Kept : Bytes → Type 0
Kept s = All (λ c. is_kept c ≡ true) s

restricted-Kept : (s : Bytes) → Kept (restricted s)
unfolding restricted is_kept
restricted-Kept [] = tt
restricted-Kept (c ∷ s) =
    (elim (Bool-cases (is_kept c)) [ inl e ↦ rw e e | inr e ↦ rw e refl ], restricted-Kept s)

trim_start-All : (P : ℕ → Type 0) (p : ℕ → Bool) (s : Bytes) → All P s → All P (trim_start p s)
unfolding trim_start
trim_start-All P p [] h = tt
trim_start-All P p (c ∷ s) (k, h) = elim (Bool-cases (p c)) [
  | inl e ↦ rw e (trim_start-All P p s h)
  | inr e ↦ rw e (k, h)
]

ended-All :
    (P : ℕ → Type 0) (p : ℕ → Bool) (c : ℕ) (s : Bytes) → P c → All P s → All P (ended p c s)
unfolding ended
ended-All P p c (d ∷ s) k h = (k, h)
ended-All P p c [] k h = elim (Bool-cases (p c)) [ inl e ↦ rw e tt | inr e ↦ rw e (k, tt) ]

trim_end-All : (P : ℕ → Type 0) (p : ℕ → Bool) (s : Bytes) → All P s → All P (trim_end p s)
unfolding trim_end
trim_end-All P p [] h = tt
trim_end-All P p (c ∷ s) (k, h) = ended-All P p c (trim_end p s) k (trim_end-All P p s h)

take-All : (P : ℕ → Type 0) (n : ℕ) (s : Bytes) → All P s → All P (take n s)
take-All P zero s h = tt
take-All P (suc n) [] h = tt
take-All P (suc n) (c ∷ s) (k, h) = (k, take-All P n s h)

-- A text is empty or does not start with what `p` accepts.
abbrev pub Starts : (ℕ → Bool) → Bytes → Type 0
Starts p [] = Unit
Starts p (c ∷ s) = p c ≡ false

trim_start-Starts : (p : ℕ → Bool) (s : Bytes) → Starts p (trim_start p s)
unfolding trim_start
trim_start-Starts p [] = tt
trim_start-Starts p (c ∷ s) = elim (Bool-cases (p c)) [
  | inl e ↦ rw e (trim_start-Starts p s)
  | inr e ↦ rw e e
]

ended-Starts : (p : ℕ → Bool) (c : ℕ) (s : Bytes) → p c ≡ false → Starts p (ended p c s)
unfolding ended
ended-Starts p c [] e = rw e e
ended-Starts p c (d ∷ s) e = e

trim_end-Starts : (p : ℕ → Bool) (s : Bytes) → Starts p s → Starts p (trim_end p s)
unfolding trim_end
trim_end-Starts p [] h = tt
trim_end-Starts p (c ∷ s) h = ended-Starts p c (trim_end p s) h

take-Starts : (p : ℕ → Bool) (n : ℕ) (s : Bytes) → Starts p s → Starts p (take n s)
take-Starts p zero s h = tt
take-Starts p (suc n) [] h = tt
take-Starts p (suc n) (c ∷ s) h = h

-- Letters and digits of ASCII, dots, dashes and underscores, 120 at most, the first no dot and no dash.
abbrev pub Safe : Bytes → Type 0
Safe name = Kept name × (length name ≤ max_name) × Starts is_edge name

cleaned-Safe : (s : Bytes) → Safe (cleaned s)
unfolding cleaned
cleaned-Safe s =
    let start = trim_start is_edge (restricted s) in
    let inner = trim_end is_edge start in
    (
      take-All (λ c. is_kept c ≡ true) max_name inner
          (trim_end-All (λ c. is_kept c ≡ true) is_edge start
            (trim_start-All (λ c. is_kept c ≡ true) is_edge (restricted s) (restricted-Kept s))),
      omega (arith, length-take {0} max_name inner),
      take-Starts is_edge max_name inner
          (trim_end-Starts is_edge start (trim_start-Starts is_edge (restricted s))),
    )

-- Whatever name a file is given, the one that it is kept under is of letters and digits of ASCII, dots, dashes and
-- underscores only, 120 of them at most, and does not start with a dot or a dash.
pub safe_name-Safe : (name : Bytes) → Safe (safe_name name)
unfolding safe_name
safe_name-Safe name =
    elim (Bool-cases (
      bytes_eq (path_base (trim_space name)) (codes ".")
      || bytes_eq (path_base (trim_space name)) (codes "/"))) [
        | inl e ↦ rw e (tt, omega arith, tt)
        | inr e ↦ rw e (cleaned-Safe (path_base (trim_space name)))
      ]
