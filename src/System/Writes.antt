-- ===== src/System/Writes.antt =====
-- Transactions' bodies that move the rows of the disputes table under a guard only.
use dispute_router.Common.{ℕ, ◌≡◌, refl, sym, subst, inl, inr, List, arith}
use dispute_router.Database.Schema.{Db}
use dispute_router.Database.Transaction.{
  Result, ok, err, Fate, works, fails, unseen, Session, Tx, ◌>>=◌, pure, statement, next_fate,
  later_fates, session, begin_func, auto_commit,
}
use dispute_router.Database.Atomic.{bind-eq-ok, sent-eq-ok, begin_func-Ends}
use dispute_router.Events.{Event, record_event}
use dispute_router.Ledger.{Entry}
use dispute_router.Ledger.Balance.{Op, post}
use dispute_router.Ledger.Frame.{post-frame}
use dispute_router.Outbox
use dispute_router.System.Rows.{Guard, Grows, Grows-trans, Grows-same, Evolves-refl}

-- A transaction's body that moves rows under the guard only.
abbrev pub Keeps : {A : Type 0} → Guard → Tx A → Type 0
Keeps {A} G m = (s s' : Session) (a : A) → m s ≡ ok (a, s') → Grows G s.db s'.db

module _ (G : Guard) where
  pub Keeps-pure : {A : Type 0} (a : A) → Keeps G (pure a)
  Keeps-pure a s s' b h = Grows-same G s.db s'.db (ground (arith, h)) (ground (arith, h))

  pub Keeps-bind :
      {A B : Type 0} (m : Tx A) (f : A → Tx B)
      → Keeps G m
      → ((a : A) → Keeps G (f a))
      → Keeps G (m >>= f)
  Keeps-bind m f k l s s' b h =
      let (a, t, first, rest) = bind-eq-ok m f s h in
      Grows-trans G s.db t.db s'.db (k s t a first) (l a t s' b rest)

  -- The fates do not matter to a statement that succeeds.
  pub Keeps-statement :
      {A : Type 0} (m : Session → Result (A × Session)) → Keeps G m → Keeps G (statement m)
  Keeps-statement m k s s' a h =
      k (record s { fates = later_fates s.fates }) s' a (sent-eq-ok (next_fate s.fates) _ h)

  -- A transaction moves rows as its body does, or not at all.
  pub begin_func-Grows :
      {A : Type 0} (body : Tx A) (fates : List Fate) (now : ℕ) (db : Db)
      → Keeps G body
      → Grows G db (begin_func body fates now db).1
  begin_func-Grows body fates now db k = elim (begin_func-Ends body now db fates) [
    | inl (x, r, same) ↦ subst (Grows G db) (sym same) (Evolves-refl G db.next_id db.disputes)
    | inr (a, s, h, same, answer, balanced) ↦
        subst (Grows G db) (sym same) (k (session db now (later_fates fates)) s a h)
  ]

  pub auto_commit-Grows :
      {A : Type 0} (f : Fate) (db : Db) (o : Result (A × Db))
      → ((a : A) (db' : Db) → o ≡ ok (a, db') → Grows G db db')
      → Grows G db (auto_commit f db o).1
  unfolding auto_commit
  auto_commit-Grows works db (ok (a, db')) k = k a db' refl
  auto_commit-Grows unseen db (ok (a, db')) k = k a db' refl
  auto_commit-Grows fails db (ok (a, db')) k = Evolves-refl G db.next_id db.disputes
  auto_commit-Grows works db (err e) k = Evolves-refl G db.next_id db.disputes
  auto_commit-Grows fails db (err e) k = Evolves-refl G db.next_id db.disputes
  auto_commit-Grows unseen db (err e) k = Evolves-refl G db.next_id db.disputes

  pub record_event-Keeps : (e : Event) → Keeps G (record_event e)
  unfolding record_event
  record_event-Keeps e s s' a h = Grows-same G s.db s'.db (ground (arith, h)) (ground (arith, h))

  pub insert-Keeps : (e : Outbox.Entry) → Keeps G (Outbox.insert e)
  unfolding Outbox.insert
  insert-Keeps e s s' a h = Grows-same G s.db s'.db (ground (arith, h)) (ground (arith, h))

  pub post-Keeps : (op : Op) (e : Entry) → Keeps G (post op e)
  post-Keeps op e s s' a h =
      let f = post-frame op e s s' h in Grows-same G s.db s'.db f.same_disputes f.ids
