-- ===== src/System/Rows.antt =====
-- Tables of disputes that grow: rows move in place, under a guard on each move, and new rows come last.
use dispute_router.Common.{
  ℕ, suc, ◌≤◌, ◌<◌, ◌≡◌, refl, sym, subst, ◌⊎◌, inl, inr, Bool, true, false, List, [], ◌∷◌, ◌++◌,
  arith, All, update_where, Bool-cases, if◌then◌else◌,
}
use dispute_router.Database.Schema.{Db, DisputeRow}
use dispute_router.Dispute.{State, received}
use dispute_router.Worker.Store.{moved}

-- What a row may be moved to.
abbrev pub Guard : Type 1
Guard = DisputeRow → State → Type 0

pub record Moves (G : Guard) (d d' : DisputeRow) : Type 0 where
  pub to : State
  pub resolved : Bool
  pub at : ℕ
  pub allowed : G d to
  pub is : d' ≡ moved to resolved at d

-- A row's history.
pub data Trail (G : Guard) (d : DisputeRow) : DisputeRow → Type 0 where
  here : Trail G d d
  next : {e f : DisputeRow} → Trail G d e → Moves G e f → Trail G d f

pub Trail-trans : (G : Guard) (d e f : DisputeRow) → Trail G d e → Trail G e f → Trail G d f
Trail-trans G d e f p here = p
Trail-trans G d e f p (next q m) = next (Trail-trans G d e _ p q) m

pub Trail-id : (G : Guard) (d e : DisputeRow) → Trail G d e → e.id ≡ d.id
unfolding moved
Trail-id G d e here = refl
Trail-id G d e (next p m) = ground (arith, m.is, Trail-id G d _ p)

-- A row that began as received.
abbrev pub Born : Guard → DisputeRow → Type 0
Born G d = (b : DisputeRow) × (b.state ≡ received) × Trail G b d

-- The old rows are there in their places, each with its history since; the new ones have ids from `n` up
-- to `n'`, in rising order.
abbrev pub Evolves : Guard → ℕ → ℕ → List DisputeRow → List DisputeRow → Type 0
Evolves G n n' [] [] = n ≤ n'
Evolves G n n' [] (d ∷ ds) = (n ≤ d.id) × (d.id < n') × Born G d × Evolves G (suc d.id) n' [] ds
Evolves G n n' (d ∷ ds) [] = ⊥
Evolves G n n' (d ∷ ds) (e ∷ es) = Trail G d e × Evolves G n n' ds es

Evolves-lower :
    (G : Guard) (k n n' : ℕ) (ds : List DisputeRow)
    → k ≤ n
    → Evolves G n n' [] ds
    → Evolves G k n' [] ds
Evolves-lower G k n n' [] h e = omega arith
Evolves-lower G k n n' (d ∷ ds) h (a, b, c, e) = (omega arith, b, c, e)

pub Evolves-refl : (G : Guard) (n : ℕ) (ds : List DisputeRow) → Evolves G n n ds ds
Evolves-refl G n [] = omega arith
Evolves-refl G n (d ∷ ds) = (here, Evolves-refl G n ds)

pub Evolves-le : (G : Guard) (n n' : ℕ) (ds es : List DisputeRow) → Evolves G n n' ds es → n ≤ n'
Evolves-le G n n' [] [] e = e
Evolves-le G n n' [] (x ∷ es) (a, b, c, e) = omega arith
Evolves-le G n n' (d ∷ ds) [] e = absurd e
Evolves-le G n n' (d ∷ ds) (x ∷ es) (p, e) = Evolves-le G n n' ds es e

new_trans :
    (G : Guard) (k n n' : ℕ) (ds es : List DisputeRow)
    → Evolves G k n [] ds
    → Evolves G n n' ds es
    → Evolves G k n' [] es
new_trans G k n n' [] es h e = Evolves-lower G k n n' es h e
new_trans G k n n' (d ∷ ds) [] h e = absurd e
new_trans G k n n' (d ∷ ds) (x ∷ es) (a, b, (o, r, p), h) (q, e) =
    let same = Trail-id G d x q in
    let le = Evolves-le G n n' ds es e in
    (
      ground (arith, same),
      ground (arith, same, le),
      (o, r, Trail-trans G o d x p q),
      subst (λ i. Evolves G (suc i) n' [] es) (sym same) (new_trans G (suc d.id) n n' ds es h e),
    )

pub Evolves-trans :
    (G : Guard) (k n n' : ℕ) (cs ds es : List DisputeRow)
    → Evolves G k n cs ds
    → Evolves G n n' ds es
    → Evolves G k n' cs es
Evolves-trans G k n n' [] ds es h e = new_trans G k n n' ds es h e
Evolves-trans G k n n' (c ∷ cs) [] es h e = absurd h
Evolves-trans G k n n' (c ∷ cs) (d ∷ ds) [] h e = absurd e
Evolves-trans G k n n' (c ∷ cs) (d ∷ ds) (x ∷ es) (p, h) (q, e) =
    (Trail-trans G c d x p q, Evolves-trans G k n n' cs ds es h e)

-- From one guard to another, where an invariant of the rows decides: it holds of the old rows and of any
-- new one, and each move keeps it.
module _ (G H : Guard) (I : DisputeRow → Type 0)
    (keep : (d : DisputeRow) (to : State) (r : Bool) (at : ℕ)
      → I d
      → G d to
      → H d to × I (moved to r at d)) where
  Trail-allow : (d e : DisputeRow) → I d → Trail G d e → Trail H d e × I e
  Trail-allow d e i here = (here, i)
  Trail-allow d e i (next {e = x} p m) =
      let (q, j) = Trail-allow d x i p in
      let (a, k) = keep x m.to m.resolved m.at j m.allowed in
      (
        next q (record { to = m.to; resolved = m.resolved; at = m.at; allowed = a; is = m.is }),
        subst I (sym m.is) k,
      )

  new-allow :
      (n n' : ℕ) (ds : List DisputeRow)
      → ((d : DisputeRow) → n ≤ d.id → I d)
      → Evolves G n n' [] ds
      → Evolves H n n' [] ds
  new-allow n n' [] i e = e
  new-allow n n' (d ∷ ds) i (a, b, (o, r, p), e) = (
    a,
    b,
    (o, r, (Trail-allow o d (i o (ground (arith, Trail-id G o d p))) p).0),
    new-allow (suc d.id) n' ds (λ x h. i x (omega arith)) e,
  )

  pub Evolves-allow :
      (n n' : ℕ) (ds es : List DisputeRow)
      → ((d : DisputeRow) → n ≤ d.id → I d)
      → All I ds
      → Evolves G n n' ds es
      → Evolves H n n' ds es
  Evolves-allow n n' [] es i h e = new-allow n n' es i e
  Evolves-allow n n' (d ∷ ds) [] i h e = absurd e
  Evolves-allow n n' (d ∷ ds) (x ∷ es) i (h, hs) (p, e) =
      ((Trail-allow d x h p).0, Evolves-allow n n' ds es i hs e)

-- From one database to the next.
abbrev pub Grows : Guard → Db → Db → Type 0
Grows G db db' = Evolves G db.next_id db'.next_id db.disputes db'.disputes

pub Grows-trans : (G : Guard) (a b c : Db) → Grows G a b → Grows G b c → Grows G a c
Grows-trans G a b c h k =
    Evolves-trans G a.next_id b.next_id c.next_id a.disputes b.disputes c.disputes h k

Evolves-upper : (G : Guard) (n n' : ℕ) (ds : List DisputeRow) → n ≤ n' → Evolves G n n' ds ds
Evolves-upper G n n' [] h = h
Evolves-upper G n n' (d ∷ ds) h = (here, Evolves-upper G n n' ds h)

pub Grows-same :
    (G : Guard) (a b : Db) → b.disputes ≡ a.disputes → a.next_id ≤ b.next_id → Grows G a b
Grows-same G a b e h =
    subst (Evolves G a.next_id b.next_id a.disputes) (sym e)
      (Evolves-upper G a.next_id b.next_id a.disputes h)

update-Evolves :
    (G : Guard) (n : ℕ) (p : DisputeRow → Bool) (to : State) (r : Bool) (at : ℕ)
    (ds : List DisputeRow)
    → ((d : DisputeRow) → p d ≡ true → G d to)
    → Evolves G n n ds (update_where p (moved to r at) ds)
unfolding update_where
update-Evolves G n p to r at [] g = omega arith
update-Evolves G n p to r at (d ∷ ds) g =
    (one (Bool-cases (p d)), update-Evolves G n p to r at ds g)
  where
    one : (p d ≡ true) ⊎ (p d ≡ false) → Trail G d (if p d then moved to r at d else d)
    one (inl e) =
        rw e (next here (record { to = to; resolved = r; at = at; allowed = g d e; is = refl }))
    one (inr e) = rw e here

pub Grows-update :
    (G : Guard) (a b : Db) (p : DisputeRow → Bool) (to : State) (r : Bool) (at : ℕ)
    → ((d : DisputeRow) → p d ≡ true → G d to)
    → b.disputes ≡ update_where p (moved to r at) a.disputes
    → b.next_id ≡ a.next_id
    → Grows G a b
Grows-update G a b p to r at g e f = subst (Evolves G a.next_id b.next_id a.disputes) (sym e) (
    subst (λ n. Evolves G a.next_id n a.disputes (update_where p (moved to r at) a.disputes))
      (sym f) (update-Evolves G a.next_id p to r at a.disputes g))

append-Evolves :
    (G : Guard) (n : ℕ) (d : DisputeRow) (ds : List DisputeRow)
    → d.id ≡ n
    → d.state ≡ received
    → Evolves G n (suc n) ds (ds ++ (d ∷ []))
append-Evolves G n d [] e r = (omega arith, omega arith, (d, r, here), omega arith)
append-Evolves G n d (x ∷ ds) e r = (here, append-Evolves G n d ds e r)

pub Grows-append :
    (G : Guard) (a b : Db) (d : DisputeRow)
    → d.id ≡ a.next_id
    → d.state ≡ received
    → b.disputes ≡ a.disputes ++ (d ∷ [])
    → b.next_id ≡ suc a.next_id
    → Grows G a b
Grows-append G a b d i r e f = subst (Evolves G a.next_id b.next_id a.disputes) (sym e) (
    subst (λ n. Evolves G a.next_id n a.disputes (a.disputes ++ (d ∷ []))) (sym f)
      (append-Evolves G a.next_id d a.disputes i r))
