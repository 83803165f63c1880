-- ===== src/System/Upkeep.antt =====
-- What holds of the whole system all the time: the primary key, and that nothing read or claimed is wrong.
use dispute_router.Common.{
  ℕ, suc, ◌≡◌, refl, sym, subst, Bool, List, arith, All, All-map, find_where-holds, ◌==◌,
}
use dispute_router.Common.Bytes.{Bytes}
use dispute_router.Agent.Runs
use dispute_router.Agent.Runs.{Claim, can_hold}
use dispute_router.Agent.Runs.Rows.{hold-found}
use dispute_router.Database.Schema.{Db}
use dispute_router.Database.Transaction.{Result, ok, err, Fate}
use dispute_router.Dispute.{State, resolving}
use dispute_router.System.{
  System, Input, delivers, rules, reads, decides, holds, gives_back, finishes, reviews,
  keep_reading, keep_claim, step,
}
use dispute_router.System.Edges.{KnownIn}
use dispute_router.System.Known.{
  Keyed, Fits, Evolves-Keyed, Evolves-Fits, find_where-Fits, hold-Fits,
}
use dispute_router.System.Lifecycle.{Consistent, step-Lifecycle}
use dispute_router.System.Rows.{Guard, Evolves-le, Grows}
use dispute_router.Worker.Store.{Loaded, load}
use dispute_router.Worker.Store.Rows.{load-found}

KnownIn-Grows :
    (G : Guard) (id version : ℕ) (state : State) (db db' : Db)
    → KnownIn id version state db
    → Grows G db db'
    → KnownIn id version state db'
KnownIn-Grows G id v st db db' (lt, f) e =
    let le = Evolves-le G db.next_id db'.next_id db.disputes db'.disputes e in
    (omega arith, Evolves-Fits G id v st db.next_id db'.next_id db.disputes db'.disputes lt f e)

-- What was known of a database holds of the next.
grown :
    (G : Guard) (s : System) (db' : Db)
    → Consistent s
    → Grows G s.db db'
    → Consistent (record s { db = db' })
grown G s db' k e = record {
  keyed = Evolves-Keyed G 0 s.db.next_id db'.next_id s.db.disputes db'.disputes k.keyed e;
  readings =
      All-map _ _ s.readings (λ l h. KnownIn-Grows G l.id l.version l.state s.db db' h e)
        k.readings;
  claims =
      All-map _ _ s.claims (λ c h. KnownIn-Grows G c.dispute_id c.version resolving s.db db' h e)
        k.claims;
}

-- A row that is read is known.
keep_reading-KnownIn :
    (id : ℕ) (f : Fate) (db : Db) (o : Result Loaded) (ls : List Loaded)
    → Keyed 0 db.next_id db.disputes
    → load id f db ≡ o
    → All (λ l. KnownIn l.id l.version l.state db) ls
    → All (λ l. KnownIn l.id l.version l.state db) (keep_reading o ls)
keep_reading-KnownIn id f db (err e) ls k h a = a
keep_reading-KnownIn id f db (ok l) ls k h a =
    let (d, found, i, v, s) = load-found id f db l h in
    let at : d.id ≡ id = ground (arith, find_where-holds (λ x. x.id == id) db.disputes found) in
    let (fits, lt) = find_where-Fits id 0 db.next_id db.disputes d k found in
    let whose : l.id ≡ id = ground (arith, i, at) in
    (
      (
        ground (arith, whose, lt),
        All-map _ _ db.disputes
            (λ x fit same. ground (arith, fit (ground (arith, same, whose)), v, s)) fits,
      ),
      a,
    )

-- A row that is claimed is known.
keep_claim-KnownIn :
    (id : ℕ) (f : Fate) (db : Db) (o : Result Claim) (cs : List Claim)
    → Keyed 0 db.next_id db.disputes
    → (Runs.hold id f db).0 ≡ o
    → All (λ c. KnownIn c.dispute_id c.version resolving (Runs.hold id f db).1) cs
    → All (λ c. KnownIn c.dispute_id c.version resolving (Runs.hold id f db).1) (keep_claim o cs)
keep_claim-KnownIn id f db (err e) cs k h a = a
keep_claim-KnownIn id f db (ok c) cs k h a =
    let (d, found, i, v, rows, ids) = hold-found id f db c h in
    let (fits, lt) = hold-Fits id 0 db.next_id db.disputes d k found in
    let fits' = subst (All (Fits d.id (suc d.version) resolving)) (sym rows) fits in
    (
      (
        ground (arith, i, lt, ids),
        All-map _ _ (Runs.hold id f db).1.disputes
            (λ x fit same. ground (arith, fit (ground (arith, same, i)), v)) fits',
      ),
      a,
    )

pub step-Consistent :
    (j : Bytes → Bool) (i : Input) (s : System) → Consistent s → Consistent (step j i s)
unfolding step
step-Consistent j i s k = by_input i (grown _ s (step j i s).db k (step-Lifecycle j i s k))
  where
    by_input :
        (i : Input) → Consistent (record s { db = (step j i s).db }) → Consistent (step j i s)
    by_input (delivers d e seen fates now) c = c
    by_input (rules d e fates now) c = c
    by_input (reads id f) c = record {
      keyed = c.keyed;
      readings = keep_reading-KnownIn id f s.db (load id f s.db) s.readings k.keyed refl c.readings;
      claims = c.claims;
    }
    by_input (decides n at w fates now) c = c
    by_input (holds id f) c = record {
      keyed = c.keyed;
      readings = c.readings;
      claims = keep_claim-KnownIn id f s.db (Runs.hold id f s.db).0 s.claims k.keyed refl c.claims;
    }
    by_input (gives_back n f) c = c
    by_input (finishes n r fates now) c = c
    by_input (reviews run_id decision who fates now) c = c
