-- ===== src/System/Known.antt =====
-- What a version stands for: a reading or a claim that is not behind describes the row as it is.
use dispute_router.Common.{
  ℕ, suc, ◌≤◌, ◌<◌, ◌≡◌, refl, sym, subst, ◌⊎◌, inl, inr, Bool, false, List, [], ◌∷◌, some, arith,
  All, All-map, All-update_where, find_where, update_where, Bool-cases, ◌==◌, if◌then◌else◌,
}
use dispute_router.Database.Schema.{DisputeRow}
use dispute_router.Dispute.{State, resolving}
use dispute_router.System.Rows.{Guard, Trail, here, next, Trail-id, Evolves}
use dispute_router.Worker.Store.{moved}
use dispute_router.Agent.Runs.{can_hold}

-- The primary key: ids rise, from `k` up to `n`.
abbrev pub Keyed : ℕ → ℕ → List DisputeRow → Type 0
Keyed k n [] = k ≤ n
Keyed k n (d ∷ ds) = (k ≤ d.id) × (d.id < n) × Keyed (suc d.id) n ds

new-Keyed :
    (G : Guard) (k n n' : ℕ) (ds : List DisputeRow) → k ≤ n → Evolves G n n' [] ds → Keyed k n' ds
new-Keyed G k n n' [] h e = omega arith
new-Keyed G k n n' (d ∷ ds) h (a, b, c, e) =
    (omega arith, b, new-Keyed G (suc d.id) (suc d.id) n' ds (omega arith) e)

-- A reading or a claim of a row, at a version and in a state: the row is past it, or is as it says.
abbrev pub Fits : ℕ → ℕ → State → DisputeRow → Type 0
Fits id version state d =
    (d.id ≡ id) → (version < d.version) ⊎ ((version ≡ d.version) × (d.state ≡ state))

above : (k id n : ℕ) (ds : List DisputeRow) → id < k → Keyed k n ds → All (λ d. id < d.id) ds
above k id n [] h e = tt
above k id n (d ∷ ds) h (a, b, e) = (omega arith, above (suc d.id) id n ds (omega arith) e)

Keyed-le : (k n : ℕ) (ds : List DisputeRow) → Keyed k n ds → k ≤ n
Keyed-le k n [] h = h
Keyed-le k n (d ∷ ds) (a, b, e) = omega arith

pub Evolves-Keyed :
    (G : Guard) (k n n' : ℕ) (ds es : List DisputeRow)
    → Keyed k n ds
    → Evolves G n n' ds es
    → Keyed k n' es
Evolves-Keyed G k n n' [] es h e = new-Keyed G k n n' es h e
Evolves-Keyed G k n n' (d ∷ ds) [] h e = absurd e
Evolves-Keyed G k n n' (d ∷ ds) (x ∷ es) (a, b, h) (p, e) =
    let same = Trail-id G d x p in
    let rest = Evolves-Keyed G (suc d.id) n n' ds es h e in
    let le = Keyed-le (suc d.id) n' es rest in
    (omega (arith, same), omega (arith, same, le), subst (λ i. Keyed (suc i) n' es) (sym same) rest)

-- Whatever moves, a reading fits still: each move raises the version.
Trail-Fits :
    (G : Guard) (id version : ℕ) (state : State) (d e : DisputeRow)
    → Fits id version state d
    → Trail G d e
    → Fits id version state e
unfolding moved
Trail-Fits G id v st d e f here = f
Trail-Fits G id v st d e f (next {e = x} p m) = λ same.
    let before = Trail-Fits G id v st d x f p (ground (arith, m.is, same)) in
    inl (ground (arith, m.is, before))

new-Fits :
    (G : Guard) (id version : ℕ) (state : State) (n n' : ℕ) (ds : List DisputeRow)
    → id < n
    → Evolves G n n' [] ds
    → All (Fits id version state) ds
new-Fits G id v st n n' [] h e = tt
new-Fits G id v st n n' (d ∷ ds) h (a, b, c, e) =
    (λ same. absurd (omega arith), new-Fits G id v st (suc d.id) n' ds (omega arith) e)

pub Evolves-Fits :
    (G : Guard) (id version : ℕ) (state : State) (n n' : ℕ) (ds es : List DisputeRow)
    → id < n
    → All (Fits id version state) ds
    → Evolves G n n' ds es
    → All (Fits id version state) es
Evolves-Fits G id v st n n' [] es h f e = new-Fits G id v st n n' es h e
Evolves-Fits G id v st n n' (d ∷ ds) [] h f e = absurd e
Evolves-Fits G id v st n n' (d ∷ ds) (x ∷ es) h (f, fs) (p, e) =
    (Trail-Fits G id v st d x f p, Evolves-Fits G id v st n n' ds es h fs e)

-- A row that is found by its id is the only one with that id.
not_above :
    (id version : ℕ) (state : State) (ds : List DisputeRow)
    → All (λ d. id < d.id) ds
    → All (Fits id version state) ds
not_above id v st ds h = All-map _ _ ds (λ d lt same. absurd (omega arith)) h

pub find_where-Fits :
    (id k n : ℕ) (ds : List DisputeRow) (d : DisputeRow)
    → Keyed k n ds
    → find_where (λ x. x.id == id) ds ≡ some d
    → All (Fits id d.version d.state) ds × (id < n)
unfolding find_where
find_where-Fits id k n [] d h e = absurd (ground (arith, e))
find_where-Fits id k n (x ∷ ds) d (a, b, h) e = elim (Bool-cases (x.id == id)) [
  | inl hit ↦
      let same : x ≡ d = ground (arith, rw hit at e) in
      let at : x.id ≡ id = ground (arith, hit) in
      (
        (
          λ _. inr (ground (arith, same), ground (arith, same)),
          not_above id d.version d.state ds
              (subst (λ i. All (λ y. i < y.id) ds) at (above (suc x.id) x.id n ds (omega arith) h)),
        ),
        ground (arith, at),
      )
  | inr miss ↦
      let (rest, lt) = find_where-Fits id (suc x.id) n ds d h (rw miss at e) in
      ((λ same. absurd (ground (arith, miss, same)), rest), lt)
]

found_in :
    (P : DisputeRow → Type 0) (p : DisputeRow → Bool) (ds : List DisputeRow) (d : DisputeRow)
    → All P ds
    → find_where p ds ≡ some d
    → P d
unfolding find_where
found_in P p [] d h e = absurd (ground (arith, e))
found_in P p (x ∷ ds) d (a, h) e = elim (Bool-cases (p x)) [
  | inl hit ↦ subst P (ground (arith, rw hit at e)) a
  | inr miss ↦ found_in P p ds d h (rw miss at e)
]

update-above :
    (p : DisputeRow → Bool) (to : State) (id : ℕ) (ds : List DisputeRow)
    → All (λ y. id < y.id) ds
    → All (λ y. id < y.id) (update_where p (moved to false 0) ds)
unfolding moved
update-above p to id ds h =
    All-update_where _ _ p (moved to false 0) ds (λ y e lt. lt) (λ y e lt. lt) h

-- A claim fits the row that it has just held.
pub hold-Fits :
    (id k n : ℕ) (ds : List DisputeRow) (d : DisputeRow)
    → Keyed k n ds
    → find_where (can_hold id) ds ≡ some d
    → All
        (Fits d.id (suc d.version) resolving)
        (update_where (can_hold id) (moved resolving false 0) ds)
      × (d.id < n)
unfolding find_where update_where moved
hold-Fits id k n [] d h e = absurd (ground (arith, e))
hold-Fits id k n (x ∷ ds) d (a, b, h) e = elim (Bool-cases (can_hold id x)) [
  | inl hit ↦
      let same : x ≡ d = ground (arith, rw hit at e) in
      let over =
        update-above (can_hold id) resolving x.id ds (above (suc x.id) x.id n ds (omega arith) h) in
      subst
        (λ y.
          All (Fits y.id (suc y.version) resolving) (
            (if can_hold id x then moved resolving false 0 x else x)
            ∷ update_where (can_hold id) (moved resolving false 0) ds)
          × (y.id < n))
        same (rw hit ((λ _. inr (refl, refl), not_above x.id (suc x.version) resolving _ over), b))
  | inr miss ↦
      let (rest, lt) = hold-Fits id (suc x.id) n ds d h (rw miss at e) in
      let over =
        found_in (λ y. x.id < y.id) (can_hold id) ds d (above (suc x.id) x.id n ds (omega arith) h)
          (rw miss at e) in
      rw miss ((λ same. absurd (omega (arith, over, same)), rest), lt)
]
