-- ===== src/System/Lifecycle.antt =====
-- The life of a dispute, across all that writes to it, in any order.
use dispute_router.Common.{
  ℕ, zero, suc, ◌≡◌, refl, sym, subst, subst₂, String, Bool, false, List, [], ◌∷◌, Option, none,
  some, arith, All, get_elem?,
}
use dispute_router.Common.Bytes.{Bytes}
use dispute_router.Agent.Runs
use dispute_router.Agent.Runs.{Claim, Run, is_claimed, next_state, release, record_run}
use dispute_router.Agent.Runs.Rows.{
  ClaimGuard, HoldGuard, hold-Grows, release-Grows, record_run-Grows,
}
use dispute_router.Database.Schema.{Db}
use dispute_router.Database.Transaction.{Fate}
use dispute_router.Dispute.{State, received, resolving}
use dispute_router.Ingest.Event.{
  DisputeWebhook, RulingWebhook, InvalidEvent, validate, validate_ruling,
}
use dispute_router.Ingest.Ruling.{record_ruling}
use dispute_router.Ingest.Store.{Delivery}
use dispute_router.Ingest.Ruling.Rows.{RulingGuard, record_ruling-Grows}
use dispute_router.Ingest.Store.Rows.{record_dispute-Grows}
use dispute_router.Reviews.{review}
use dispute_router.Reviews.Rows.{ReviewGuard, review-Grows}
use dispute_router.System.{
  System, Input, delivers, rules, reads, decides, holds, gives_back, finishes, reviews, deliver,
  rule, act, give_back, finish, step,
}
use dispute_router.System.Edges.{
  Edge, held, Lifecycle, KnownIn, decide-Edge, verdict-Edge, is_submission, review-Edge, run-Edge,
  given_back, free, versioned,
}
use dispute_router.System.Known.{Keyed}
use dispute_router.System.Rows.{Evolves-refl, Grows}
use dispute_router.Worker.Rules.{decide}
use dispute_router.Worker.Store.{Loaded, is_version, apply}
use dispute_router.Worker.Store.Rows.{ApplyGuard, apply-Grows}

-- The primary key holds, and what was read or claimed was so.
pub record Consistent (s : System) : Type 0 where
  pub keyed : Keyed 0 s.db.next_id s.db.disputes
  pub readings : All (λ l. KnownIn l.id l.version l.state s.db) s.readings
  pub claims : All (λ c. KnownIn c.dispute_id c.version resolving s.db) s.claims

-- Is the input a reviewer's submission?
unfoldable pub submits : Input → Bool
unfolding is_submission
submits (reviews run_id decision who fates now) = is_submission decision
submits (delivers d e seen fates now) = false
submits (rules d e fates now) = false
submits (reads id f) = false
submits (decides n at w fates now) = false
submits (holds id f) = false
submits (gives_back n f) = false
submits (finishes n r fates now) = false

get_elem?-All :
    {A : Type 0} (P : A → Type 0) (xs : List A) (n : ℕ) (x : A)
    → All P xs
    → get_elem? xs n ≡ some x
    → P x
get_elem?-All P [] n x h e = absurd (ground (arith, e))
get_elem?-All P (y ∷ xs) zero x (p, h) e = subst P (ground (arith, e)) p
get_elem?-All P (y ∷ xs) (suc n) x (p, h) e = get_elem?-All P xs n x h e

still : (flag : Bool) (db : Db) → Grows (Lifecycle flag) db db
still flag db = Evolves-refl (Lifecycle flag) db.next_id db.disputes

module _ (flag : Bool) (j : Bytes → Bool) where
  deliver-Lifecycle :
      (d : Delivery) (e : DisputeWebhook) (fates : List Fate) (now : ℕ) (db : Db)
      (o : Option InvalidEvent)
      → Grows (Lifecycle flag) db (deliver j d e fates now db o)
  unfolding deliver
  deliver-Lifecycle d e fates now db none = record_dispute-Grows (Lifecycle flag) j d e fates now db
  deliver-Lifecycle d e fates now db (some x) = still flag db

  rule-Lifecycle :
      (d : Delivery) (e : RulingWebhook) (fates : List Fate) (now : ℕ) (db : Db)
      (o : Option InvalidEvent)
      → validate_ruling e ≡ o
      → Grows (Lifecycle flag) db (rule j d e fates now db o)
  unfolding rule
  rule-Lifecycle d e fates now db none v =
      free flag (RulingGuard e) db (record_ruling j d e fates now db).1
        (λ r to g. subst₂ (Edge flag) (sym g.0) (sym g.1) (verdict-Edge flag e v))
        (record_ruling-Grows e j d fates now db)
  rule-Lifecycle d e fates now db (some x) v = still flag db

module _ (flag : Bool) where
  act-Lifecycle :
      (at : ℕ) (w : String) (fates : List Fate) (now : ℕ) (db : Db) (o : Option Loaded)
      → ((l : Loaded) → o ≡ some l → KnownIn l.id l.version l.state db)
      → Grows (Lifecycle flag) db (act at w fates now db o)
  unfolding act is_version
  act-Lifecycle at w fates now db none k = still flag db
  act-Lifecycle at w fates now db (some l) k =
      versioned flag (ApplyGuard l (decide l.candidate at)) l.id l.version l.state db
        (apply l (decide l.candidate at) w fates now db).1 (k l refl)
        (λ d to g. (
          ground (arith, g.0),
          ground (arith, g.0),
          λ same. subst (λ s. Edge flag s to) (sym same) (decide-Edge flag l.candidate at to g.1),
        ))
        (apply-Grows l (decide l.candidate at) w fates now db)

  claimed :
      (c : Claim) (to : State) (db db' : Db)
      → KnownIn c.dispute_id c.version resolving db
      → Edge flag resolving to
      → Grows (ClaimGuard c to) db db'
      → Grows (Lifecycle flag) db db'
  unfolding is_claimed
  claimed c to db db' k e =
      versioned flag (ClaimGuard c to) c.dispute_id c.version resolving db db' k (λ d t g. (
        ground (arith, g.0),
        ground (arith, g.0),
        λ same. subst₂ (Edge flag) (sym same) (sym g.1) e,
      ))

  give_back-Lifecycle :
      (f : Fate) (db : Db) (o : Option Claim)
      → ((c : Claim) → o ≡ some c → KnownIn c.dispute_id c.version resolving db)
      → Grows (Lifecycle flag) db (give_back f db o)
  unfolding give_back
  give_back-Lifecycle f db none k = still flag db
  give_back-Lifecycle f db (some c) k =
      claimed c received db (release c f db).1 (k c refl) given_back (release-Grows c f db)

  finish-Lifecycle :
      (r : Run) (fates : List Fate) (now : ℕ) (db : Db) (o : Option Claim)
      → ((c : Claim) → o ≡ some c → KnownIn c.dispute_id c.version resolving db)
      → Grows (Lifecycle flag) db (finish r fates now db o)
  unfolding finish
  finish-Lifecycle r fates now db none k = still flag db
  finish-Lifecycle r fates now db (some c) k =
      claimed c (next_state r.outcome r.escalated).0 db (record_run c r fates now db).1 (k c refl)
        (run-Edge flag r.outcome r.escalated) (record_run-Grows c r fates now db)

pub step-Lifecycle :
    (j : Bytes → Bool) (i : Input) (s : System)
    → Consistent s
    → Grows (Lifecycle (submits i)) s.db (step j i s).db
unfolding step submits
step-Lifecycle j (delivers d e seen fates now) s k =
    deliver-Lifecycle false j d e fates now s.db (validate e seen)
step-Lifecycle j (rules d e fates now) s k =
    rule-Lifecycle false j d e fates now s.db (validate_ruling e) refl
step-Lifecycle j (reads id f) s k = still false s.db
step-Lifecycle j (decides n at w fates now) s k =
    act-Lifecycle false at w fates now s.db (get_elem? s.readings n)
      (λ l e. get_elem?-All _ s.readings n l k.readings e)
step-Lifecycle j (holds id f) s k =
    free false HoldGuard s.db (Runs.hold id f s.db).1
      (λ d to g. subst₂ (Edge false) (sym g.0) (sym g.1) held) (hold-Grows id f s.db)
step-Lifecycle j (gives_back n f) s k =
    give_back-Lifecycle false f s.db (get_elem? s.claims n)
      (λ c e. get_elem?-All _ s.claims n c k.claims e)
step-Lifecycle j (finishes n r fates now) s k =
    finish-Lifecycle false r fates now s.db (get_elem? s.claims n)
      (λ c e. get_elem?-All _ s.claims n c k.claims e)
step-Lifecycle j (reviews run_id decision who fates now) s k =
    free (is_submission decision) (ReviewGuard decision) s.db
      (review run_id decision who fates now s.db).1
      (λ d to g.
        subst (λ t. Edge (is_submission decision) t to) (sym g.0) (review-Edge decision to g.1))
      (review-Grows decision run_id who fates now s.db)
