-- ===== src/Database/Atomic.antt =====
-- What pgx.BeginFunc promises: all of the body's changes or none of them.
use dispute_router.Common.{ℕ, ◌≡◌, refl, ◌⊎◌, inl, inr, Bool, true, false, List, arith}
use dispute_router.Database.Schema.{Db}
use dispute_router.Database.Transaction.{
  Error, driver_error, check_violation, Result, ok, err, Fate, works, fails, unseen, Session, Tx,
  next_fate, later_fates, session, all_balanced, begin_func, ◌>>=◌, bind_result, sent,
}

-- How a transaction ends. Either it reports an error and changes nothing, or its body succeeded, all
-- that the body did is there, each journal entry that it touched balances, and the caller is told so
-- unless the answer was lost.
abbrev pub Ends : {A : Type 0} → Tx A → List Fate → ℕ → Db → Result A → Db → Type 0
Ends {A} body fates now db r db' =
    ((e : Error) × (r ≡ err e) × (db' ≡ db))
    ⊎ ((a : A) × (s : Session) × (body (session db now (later_fates fates)) ≡ ok (a, s))
        × (db' ≡ s.db)
        × ((r ≡ ok a) ⊎ (r ≡ err driver_error))
        × (all_balanced s.pending s.db.legs ≡ true))

module _ {A : Type 0} (body : Tx A) (now : ℕ) (db : Db) where
  commit-Ends :
      (fates : List Fate) (a : A) (s : Session) (b : Bool) (f : Fate)
      → next_fate fates ≡ works
      → body (session db now (later_fates fates)) ≡ ok (a, s)
      → all_balanced s.pending s.db.legs ≡ b
      → next_fate s.fates ≡ f
      → Ends body fates now db (begin_func body fates now db).0 (begin_func body fates now db).1
  unfolding begin_func
  commit-Ends fates a s false f e p h g = inl (check_violation, ground arith, ground arith)
  commit-Ends fates a s true fails e p h g = inl (driver_error, ground arith, ground arith)
  commit-Ends fates a s true works e p h g = inr (a, s, p, ground arith, inl (ground arith), h)
  commit-Ends fates a s true unseen e p h g = inr (a, s, p, ground arith, inr (ground arith), h)

  settle-Ends :
      (fates : List Fate) (f : Fate) (o : Result (A × Session))
      → next_fate fates ≡ f
      → body (session db now (later_fates fates)) ≡ o
      → Ends body fates now db (begin_func body fates now db).0 (begin_func body fates now db).1
  unfolding begin_func
  settle-Ends fates fails o e p = inl (driver_error, rw (e, begin_func), rw (e, begin_func))
  settle-Ends fates unseen o e p = inl (driver_error, rw (e, begin_func), rw (e, begin_func))
  settle-Ends fates works (err x) e p = inl (x, ground arith, ground arith)
  settle-Ends fates works (ok (a, s)) e p = commit-Ends fates a s _ _ e p refl refl

  pub begin_func-Ends :
      (fates : List Fate)
      → Ends body fates now db (begin_func body fates now db).0 (begin_func body fates now db).1
  begin_func-Ends fates = settle-Ends fates _ _ refl refl

-- A chain that succeeded: what its first part returned, and that the rest succeeded from there.
pub bind-eq-ok :
    {A B : Type 0} (m : Tx A) (f : A → Tx B) (s : Session) {b : B} {u : Session}
    → (m >>= f) s ≡ ok (b, u)
    → (a : A) × (t : Session) × (m s ≡ ok (a, t)) × (f a t ≡ ok (b, u))
bind-eq-ok {A} {B} m f s {b} {u} h = go (m s) refl h
  where
    go :
        (o : Result (A × Session))
        → m s ≡ o
        → bind_result o (λ r. f r.0 r.1) ≡ ok (b, u)
        → (a : A) × (t : Session) × (m s ≡ ok (a, t)) × (f a t ≡ ok (b, u))
    go (ok (a, t)) e k = (a, t, e, k)
    go (err x) e k = absurd (ground arith)

-- A statement that succeeded got its answer.
pub sent-eq-ok : {A : Type 0} (f : Fate) (r : Result A) {a : A} → sent f r ≡ ok a → r ≡ ok a
sent-eq-ok works r h = h
sent-eq-ok fails r h = absurd (ground arith)
sent-eq-ok unseen r h = absurd (ground arith)

-- A chain whose first part fails.
pub bind-err :
    {A B : Type 0} (m : Tx A) (f : A → Tx B) (s : Session) (x : Error)
    → m s ≡ err x
    → (m >>= f) s ≡ err x
bind-err m f s x h = rw h

-- A body that fails from the start changes nothing.
pub begin_func-fails :
    {A : Type 0} (body : Tx A) (fates : List Fate) (now : ℕ) (db : Db)
    → ((later : List Fate) → (x : Error) × (body (session db now later) ≡ err x))
    → (x : Error) × (begin_func body fates now db ≡ (err x, db))
unfolding begin_func
begin_func-fails body fates now db h = go (next_fate fates) refl
  where
    go :
        (f : Fate)
        → next_fate fates ≡ f
        → (x : Error) × (begin_func body fates now db ≡ (err x, db))
    go works e = let (x, p) = h (later_fates fates) in (x, ground arith)
    go fails e = (driver_error, ground arith)
    go unseen e = (driver_error, ground arith)
