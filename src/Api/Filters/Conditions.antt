-- ===== src/Api/Filters/Conditions.antt =====
-- internal/api/filters.go: the conditions that a query comes to let through the rows that its filters describe. How
-- Postgres compares a text with a LIKE pattern is a parameter.
use dispute_router.Common.{
  ℕ, zero, suc, ◌+◌, ◌≤◌, ◌≡◌, refl, ap₂, Bool, true, false, ◌&&◌, ◌||◌, List, [], ◌∷◌, ◌++◌,
  Option, some, arith, length, get_elem?, All,
}
use dispute_router.Common.Bytes.{Bytes, codes, bytes_eq}
use dispute_router.Common.Int.{ℤ, leb_ℤ, ltb_ℤ}
use dispute_router.Api.Builder.{
  Arg, texts, text, amount, instant, state, Cond, any_of, equals, amount_from, amount_to,
  opened_from, opened_before, deadline_by, is_open, reference_like, Row, is_one_of, bound,
}

-- A row's value against an argument; one of another type is no match.
unfoldable pub any_holds : Bytes → Option Arg → Bool
any_holds v (some (texts vs)) = is_one_of v vs
any_holds v _ = false

unfoldable pub text_holds : (Bytes → Bool) → Option Arg → Bool
text_holds test (some (text t)) = test t
text_holds test _ = false

unfoldable pub amount_holds : (ℤ → Bool) → Option Arg → Bool
amount_holds test (some (amount n)) = test n
amount_holds test _ = false

unfoldable pub instant_holds : (ℤ → Bool) → Option Arg → Bool
instant_holds test (some (instant t)) = test t
instant_holds test _ = false

abbrev pub is_open_state : Bytes → Bool
is_open_state s = bytes_eq (codes "received") s || bytes_eq (codes "resolving") s

-- What a condition says of a row.
unfoldable pub cond_holds : (Bytes → Bytes → Bool) → Row → List Arg → Cond → Bool
unfolding any_holds text_holds amount_holds instant_holds
cond_holds like row args (any_of c n) = any_holds (row.column c) (bound args n)
cond_holds like row args (equals c n) = text_holds (bytes_eq (row.column c)) (bound args n)
cond_holds like row args (amount_from n) =
    amount_holds (λ m. leb_ℤ m row.amount_minor) (bound args n)
cond_holds like row args (amount_to n) = amount_holds (λ m. leb_ℤ row.amount_minor m) (bound args n)
cond_holds like row args (opened_from n) = instant_holds (λ t. leb_ℤ t row.opened_at) (bound args n)
cond_holds like row args (opened_before n) =
    instant_holds (λ t. ltb_ℤ row.opened_at t) (bound args n)
cond_holds like row args (deadline_by n) =
    instant_holds (λ t. leb_ℤ row.deadline_at t) (bound args n)
cond_holds like row args is_open = is_open_state (row.column state)
cond_holds like row args (reference_like m n) =
    text_holds (like row.reference) (bound args m)
    || text_holds (like row.transaction_reference) (bound args n)

unfoldable pub all_hold : (Bytes → Bytes → Bool) → Row → List Arg → List Cond → Bool
unfolding cond_holds
all_hold like row args [] = true
all_hold like row args (c ∷ cs) = cond_holds like row args c && all_hold like row args cs

-- The positions of a condition are those of `n` arguments.
abbrev pub Within : ℕ → Cond → Type 0
Within n (any_of c k) = (1 ≤ k) × (k ≤ n)
Within n (equals c k) = (1 ≤ k) × (k ≤ n)
Within n (amount_from k) = (1 ≤ k) × (k ≤ n)
Within n (amount_to k) = (1 ≤ k) × (k ≤ n)
Within n (opened_from k) = (1 ≤ k) × (k ≤ n)
Within n (opened_before k) = (1 ≤ k) × (k ≤ n)
Within n (deadline_by k) = (1 ≤ k) × (k ≤ n)
Within n is_open = Unit
Within n (reference_like k m) = (1 ≤ k) × (k ≤ n) × (1 ≤ m) × (m ≤ n)

pub Within-suc : (n : ℕ) (c : Cond) → Within n c → Within (n + 1) c
Within-suc n (any_of c k) (a, b) = (a, omega arith)
Within-suc n (equals c k) (a, b) = (a, omega arith)
Within-suc n (amount_from k) (a, b) = (a, omega arith)
Within-suc n (amount_to k) (a, b) = (a, omega arith)
Within-suc n (opened_from k) (a, b) = (a, omega arith)
Within-suc n (opened_before k) (a, b) = (a, omega arith)
Within-suc n (deadline_by k) (a, b) = (a, omega arith)
Within-suc n is_open h = tt
Within-suc n (reference_like k m) (a, b, c, d) = (a, omega arith, c, omega arith)

get-append :
    (args more : List Arg) (k : ℕ)
    → suc k ≤ length args
    → get_elem? (args ++ more) k ≡ get_elem? args k
get-append [] more k h = absurd (omega arith)
get-append (a ∷ args) more zero h = refl
get-append (a ∷ args) more (suc k) h = get-append args more k (omega arith)

bound-append :
    (args more : List Arg) (k : ℕ) → k ≤ length args → 1 ≤ k → bound (args ++ more) k ≡ bound args k
unfolding bound
bound-append args more zero h g = absurd (omega arith)
bound-append args more (suc k) h g = get-append args more k h

get-last : (args : List Arg) (a : Arg) → get_elem? (args ++ (a ∷ [])) (length args) ≡ some a
get-last [] a = refl
get-last (x ∷ args) a = get-last args a

pub bound-last : (args : List Arg) (a : Arg) → bound (args ++ (a ∷ [])) (length args + 1) ≡ some a
unfolding bound
bound-last args a =
    let e : length args + 1 ≡ suc (length args) = omega arith in rw e (get-last args a)

-- More arguments change nothing for the conditions that there are.
cond_holds-append :
    (like : Bytes → Bytes → Bool) (row : Row) (args more : List Arg) (c : Cond)
    → Within (length args) c
    → cond_holds like row (args ++ more) c ≡ cond_holds like row args c
unfolding cond_holds
cond_holds-append like row args more (any_of c k) (a, b) = rw (bound-append args more k b a) refl
cond_holds-append like row args more (equals c k) (a, b) = rw (bound-append args more k b a) refl
cond_holds-append like row args more (amount_from k) (a, b) = rw (bound-append args more k b a) refl
cond_holds-append like row args more (amount_to k) (a, b) = rw (bound-append args more k b a) refl
cond_holds-append like row args more (opened_from k) (a, b) = rw (bound-append args more k b a) refl
cond_holds-append like row args more (opened_before k) (a, b) =
    rw (bound-append args more k b a) refl
cond_holds-append like row args more (deadline_by k) (a, b) = rw (bound-append args more k b a) refl
cond_holds-append like row args more is_open h = refl
cond_holds-append like row args more (reference_like k m) (a, b, c, d) =
    rw (bound-append args more k b a, bound-append args more m d c) refl

pub all_hold-args :
    (like : Bytes → Bytes → Bool) (row : Row) (args more : List Arg) (cs : List Cond)
    → All (Within (length args)) cs
    → all_hold like row (args ++ more) cs ≡ all_hold like row args cs
unfolding all_hold
all_hold-args like row args more [] h = refl
all_hold-args like row args more (c ∷ cs) (w, h) =
    ap₂ (λ p q. p && q) (cond_holds-append like row args more c w)
      (all_hold-args like row args more cs h)

pub all_hold-conds :
    (like : Bytes → Bytes → Bool) (row : Row) (args : List Arg) (cs : List Cond) (c : Cond)
    → all_hold like row args (cs ++ (c ∷ []))
      ≡ (all_hold like row args cs && cond_holds like row args c)
unfolding all_hold
all_hold-conds like row args [] c = ground arith
all_hold-conds like row args (d ∷ cs) c = ground (arith, all_hold-conds like row args cs c)
