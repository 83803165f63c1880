-- ===== src/Agent/Assist/Checks.antt =====
-- internal/agent/assist.go and generate.go: what the checks on a letter and on its cost ask for.
use mathlib.Core.List.{Memᴰ}
use dispute_router.Common.{
  ℕ, ◌+◌, ◌≡◌, ◌<◌, ◌↔◌, refl, sym, inl, inr, All, Bool, Bool-cases, eq_iff, str_eq, not, ◌&&◌,
  ◌++◌, ◌⊎◌, String, true, false, List, [], ◌∷◌, Option, none, some, arith,
}
use dispute_router.Agent.Runs.{Claim}
use dispute_router.Agent.Assist.{
  is_listed_file, uncited_files, undeclared_files, Limits, over_budget, estimate_exceeds,
}
use dispute_router.Database.Schema.{Finding}

-- Under the ceiling, where zero is none.
abbrev pub Affordable : Limits → ℕ → Type 0
Affordable l micros = (l.max_cost_micros ≡ 0) ⊎ (micros < l.max_cost_micros)

-- An estimate that failed asks for nothing.
abbrev pub AffordableEstimate : Limits → ℕ → Option ℕ → Type 0
AffordableEstimate l spent none = Unit
AffordableEstimate l spent (some estimate) = Affordable l (spent + estimate)

pub over_budget-Affordable : (l : Limits) (n : ℕ) → (over_budget l n ≡ false) ↔ Affordable l n
unfolding over_budget
over_budget-Affordable l n = ((λ h. ground arith), λ h. ground arith)

pub estimate_exceeds-Affordable :
    (l : Limits) (c : Claim) (o : Option ℕ)
    → (estimate_exceeds l c o ≡ false) ↔ AffordableEstimate l c.spent_micros o
unfolding estimate_exceeds
estimate_exceeds-Affordable l c none = ((λ h. tt), λ h. refl)
estimate_exceeds-Affordable l c (some n) = over_budget-Affordable l (c.spent_micros + n)

is_listed_file-Memᴰ :
    (name : String) (files : List String) → (is_listed_file name files ≡ true) ↔ Memᴰ name files
unfolding is_listed_file
is_listed_file-Memᴰ name files = (listed files, λ m. is_listed m)
  where
    listed : (files : List String) → is_listed_file name files ≡ true → Memᴰ name files
    listed [] h = absurd (ground arith)
    listed (f ∷ files) h = elim (Bool-cases (str_eq f name)) [
      | inl e ↦ Memᴰ.head (sym ((eq_iff f name).0 e))
      | inr e ↦ Memᴰ.tail (listed files (rw (e, is_listed_file) at h))
    ]

    is_listed : {files : List String} → Memᴰ name files → is_listed_file name files ≡ true
    is_listed (Memᴰ.head e) = rw ((eq_iff _ _).1 (sym e), is_listed_file) refl
    is_listed (Memᴰ.tail {x = x} m) = elim (Bool-cases (str_eq x name)) [
      | inl e ↦ rw (e, is_listed_file) refl
      | inr e ↦ rw (e, is_listed_file) (is_listed m)
    ]

pub uncited_files-none :
    (files cited : List String) → (uncited_files files cited ≡ []) ↔ All (λ f. Memᴰ f files) cited
unfolding uncited_files
uncited_files-none files [] = ((λ h. tt), λ h. refl)
uncited_files-none files (f ∷ cited) = elim (Bool-cases (is_listed_file f files)) [
  | inl e ↦ (
    (λ h. (
      (is_listed_file-Memᴰ f files).0 e,
      (uncited_files-none files cited).0 (ground (arith, e, h)),
    )),
    λ (m, h). ground (arith, e, (uncited_files-none files cited).1 h),
  )
  | inr e ↦ (
    (λ h. absurd (ground (arith, e, h))),
    λ (m, h). absurd (ground (arith, e, (is_listed_file-Memᴰ f files).1 m)),
  )
]

pub undeclared_files-none :
    (names : String → Bool) (cited files : List String)
    → (undeclared_files names cited files ≡ []) ↔ All (λ f. (names f ≡ false) ⊎ Memᴰ f cited) files
unfolding undeclared_files
undeclared_files-none names cited [] = ((λ h. tt), λ h. refl)
undeclared_files-none names cited (f ∷ files) =
    elim (Bool-cases (names f && not (is_listed_file f cited))) [
      | inr e ↦ (
        (λ h. (declared e, (undeclared_files-none names cited files).0 (ground (arith, e, h)))),
        λ (m, h). ground (arith, e, (undeclared_files-none names cited files).1 h),
      )
      | inl e ↦ ((λ h. absurd (ground (arith, e, h))), λ (m, h). absurd (refuted e m))
    ]
  where
    declared : (names f && not (is_listed_file f cited)) ≡ false → (names f ≡ false) ⊎ Memᴰ f cited
    declared e = elim (Bool-cases (names f)) [
      | inr n ↦ inl n
      | inl n ↦ inr ((is_listed_file-Memᴰ f cited).0 (ground (arith, e, n)))
    ]

    refuted :
        (names f && not (is_listed_file f cited)) ≡ true → (names f ≡ false) ⊎ Memᴰ f cited → ⊥
    refuted e (inl n) = ground (arith, e, n)
    refuted e (inr m) = ground (arith, e, (is_listed_file-Memᴰ f cited).1 m)

pub append-none : (xs ys : List Finding) → (xs ++ ys ≡ []) ↔ ((xs ≡ []) × (ys ≡ []))
append-none [] ys = ((λ h. (refl, h)), λ (e, h). h)
append-none (x ∷ xs) ys = ((λ h. absurd (ground arith)), λ (e, h). absurd (ground arith))
