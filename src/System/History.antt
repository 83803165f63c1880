-- ===== src/System/History.antt =====
-- What becomes of a dispute over any number of inputs, in any order.
use dispute_router.Common.{
  ℕ, zero, suc, ◌≡◌, refl, sym, subst, ◌⊎◌, inl, inr, Bool, true, false, ◌||◌, List, [], ◌∷◌, some,
  arith, get_elem?,
}
use dispute_router.Common.Bytes.{Bytes}
use dispute_router.Database.Schema.{Db, DisputeRow}
use dispute_router.Dispute.{
  State, received, resolving, draft_ready, represented, refunded, won, lost, expired, unlisted,
}
use dispute_router.System.{System, Input, step, run}
use dispute_router.System.Edges
use dispute_router.System.Edges.{Edge, Lifecycle, free}
use dispute_router.System.Lifecycle.{Consistent, submits, step-Lifecycle}
use dispute_router.System.Rows.{
  Guard, Trail, here, next, Born, Evolves, Evolves-refl, Grows, Grows-trans,
}
use dispute_router.System.Upkeep.{step-Consistent}
use dispute_router.Worker.Store.{moved}

-- Is a reviewer's submission among the inputs?
unfoldable pub submits_any : List Input → Bool
submits_any [] = false
submits_any (i ∷ is) = submits i || submits_any is

-- No part of the system moves a dispute on from here.
unfoldable pub is_final : State → Bool
is_final refunded = true
is_final won = true
is_final lost = true
is_final expired = true
is_final received = false
is_final resolving = false
is_final draft_ready = false
is_final represented = false
is_final (unlisted name) = false

-- Where a dispute stands once its defense has been sent.
unfoldable pub is_sent : State → Bool
is_sent represented = true
is_sent won = true
is_sent lost = true
is_sent received = false
is_sent resolving = false
is_sent draft_ready = false
is_sent refunded = false
is_sent expired = false
is_sent (unlisted name) = false

wider : {a b : State} (f g : Bool) → (f ≡ true → g ≡ true) → Edge f a b → Edge g a b
wider f g h Edges.held = Edges.held
wider f g h Edges.refunded_early = Edges.refunded_early
wider f g h Edges.expired_early = Edges.expired_early
wider f g h Edges.given_back = Edges.given_back
wider f g h Edges.put_to_review = Edges.put_to_review
wider f g h Edges.refunded_held = Edges.refunded_held
wider f g h Edges.expired_held = Edges.expired_held
wider f g h Edges.discarded_draft = Edges.discarded_draft
wider f g h Edges.submitted_draft =
    subst (λ x. Edge x draft_ready represented) (sym (h refl)) Edges.submitted_draft
wider f g h Edges.expired_draft = Edges.expired_draft
wider f g h Edges.ruled_won = Edges.ruled_won
wider f g h Edges.ruled_lost = Edges.ruled_lost

Lifecycle-wider :
    (f g : Bool) (db db' : Db)
    → (f ≡ true → g ≡ true)
    → Grows (Lifecycle f) db db'
    → Grows (Lifecycle g) db db'
Lifecycle-wider f g db db' h = free g (Lifecycle f) db db' (λ d to. wider f g h)

-- Every row that was there is there still, in its place and after moves of the state machine only; every
-- row that is new began as received.
pub run-Lifecycle :
    (is_jsonb : Bytes → Bool) (is : List Input) (s : System)
    → Consistent s
    → Grows (Lifecycle (submits_any is)) s.db (run is_jsonb is s).db
unfolding run submits_any
run-Lifecycle j [] s k = Evolves-refl (Lifecycle false) s.db.next_id s.db.disputes
run-Lifecycle j (i ∷ is) s k =
    let t = step j i s in
    Grows-trans (Lifecycle (submits i || submits_any is)) s.db t.db (run j is t).db
      (Lifecycle-wider (submits i) (submits i || submits_any is) s.db t.db (λ e. ground (arith, e))
        (step-Lifecycle j i s k))
      (Lifecycle-wider (submits_any is) (submits i || submits_any is) t.db (run j is t).db
        (λ e. ground (arith, e)) (run-Lifecycle j is t (step-Consistent j i s k)))

-- A row in its place, later and before.
forward :
    (G : Guard) (n n' i : ℕ) (ds es : List DisputeRow) (d : DisputeRow)
    → Evolves G n n' ds es
    → get_elem? ds i ≡ some d
    → (e : DisputeRow) × (get_elem? es i ≡ some e) × Trail G d e
forward G n n' i [] es d h e = absurd (ground (arith, e))
forward G n n' i (x ∷ ds) [] d h e = absurd h
forward G n n' zero (x ∷ ds) (y ∷ es) d (p, h) e =
    (y, refl, subst (λ z. Trail G z y) (ground (arith, e)) p)
forward G n n' (suc i) (x ∷ ds) (y ∷ es) d (p, h) e = forward G n n' i ds es d h e

backward :
    (G : Guard) (n n' i : ℕ) (ds es : List DisputeRow) (e : DisputeRow)
    → Evolves G n n' ds es
    → get_elem? es i ≡ some e
    → ((d : DisputeRow) × (get_elem? ds i ≡ some d) × Trail G d e) ⊎ Born G e
backward G n n' i [] [] e h k = absurd (ground (arith, k))
backward G n n' zero [] (y ∷ es) e (a, b, c, h) k = inr (subst (Born G) (ground (arith, k)) c)
backward G n n' (suc i) [] (y ∷ es) e (a, b, c, h) k =
    by_rest (backward G (suc y.id) n' i [] es e h k)
  where
    by_rest :
        ((d : DisputeRow) × (get_elem? {A = DisputeRow} [] i ≡ some d) × Trail G d e) ⊎ Born G e
        → ((d : DisputeRow) × (get_elem? {A = DisputeRow} [] (suc i) ≡ some d) × Trail G d e)
          ⊎ Born G e
    by_rest (inl (d, place, p)) = absurd (ground (arith, place))
    by_rest (inr b) = inr b
backward G n n' i (x ∷ ds) [] e h k = absurd h
backward G n n' zero (x ∷ ds) (y ∷ es) e (p, h) k =
    inl (x, refl, subst (Trail G x) (ground (arith, k)) p)
backward G n n' (suc i) (x ∷ ds) (y ∷ es) e (p, h) k = backward G n n' i ds es e h k

leaves-is_final : {a b : State} (f : Bool) → Edge f a b → is_final a ≡ false
unfolding is_final
leaves-is_final f Edges.held = refl
leaves-is_final f Edges.refunded_early = refl
leaves-is_final f Edges.expired_early = refl
leaves-is_final f Edges.given_back = refl
leaves-is_final f Edges.put_to_review = refl
leaves-is_final f Edges.refunded_held = refl
leaves-is_final f Edges.expired_held = refl
leaves-is_final f Edges.discarded_draft = refl
leaves-is_final f Edges.submitted_draft = refl
leaves-is_final f Edges.expired_draft = refl
leaves-is_final f Edges.ruled_won = refl
leaves-is_final f Edges.ruled_lost = refl

Trail-is_final :
    (f : Bool) (d e : DisputeRow) → is_final d.state ≡ true → Trail (Lifecycle f) d e → e ≡ d
Trail-is_final f d e h here = refl
Trail-is_final f d e h (next {e = x} p m) =
    let same = Trail-is_final f d x h p in
    absurd (ground (arith, leaves-is_final f m.allowed, same))

-- A submission apart, only a dispute that has been sent moves to where one has been sent.
enters-is_sent : {a b : State} → Edge false a b → is_sent b ≡ true → is_sent a ≡ true
unfolding is_sent
enters-is_sent Edges.held h = absurd (ground (arith, h))
enters-is_sent Edges.refunded_early h = absurd (ground (arith, h))
enters-is_sent Edges.expired_early h = absurd (ground (arith, h))
enters-is_sent Edges.given_back h = absurd (ground (arith, h))
enters-is_sent Edges.put_to_review h = absurd (ground (arith, h))
enters-is_sent Edges.refunded_held h = absurd (ground (arith, h))
enters-is_sent Edges.expired_held h = absurd (ground (arith, h))
enters-is_sent Edges.discarded_draft h = absurd (ground (arith, h))
enters-is_sent Edges.expired_draft h = absurd (ground (arith, h))
enters-is_sent Edges.ruled_won h = refl
enters-is_sent Edges.ruled_lost h = refl

Trail-is_sent :
    (d e : DisputeRow)
    → is_sent e.state ≡ true
    → Trail (Lifecycle false) d e
    → is_sent d.state ≡ true
unfolding moved
Trail-is_sent d e h here = h
Trail-is_sent d e h (next {e = x} p m) =
    Trail-is_sent d x (enters-is_sent m.allowed (ground (arith, m.is, h))) p

-- A dispute that is refunded, won, lost or expired stays as it is, to its last field.
pub run-is_final :
    (is_jsonb : Bytes → Bool) (is : List Input) (s : System) (i : ℕ) (d : DisputeRow)
    → Consistent s
    → get_elem? s.db.disputes i ≡ some d
    → is_final d.state ≡ true
    → get_elem? (run is_jsonb is s).db.disputes i ≡ some d
run-is_final j is s i d k e h =
    let t = run j is s in
    let (x, found, p) =
      forward (Lifecycle (submits_any is)) s.db.next_id t.db.next_id i s.db.disputes t.db.disputes d
        (run-Lifecycle j is s k) e in
    ground (arith, found, Trail-is_final (submits_any is) d x h p)

-- As long as no reviewer submits a draft, no defense is sent: a row that is represented, won or lost in
-- the end was so in the beginning.
pub run-is_sent :
    (is_jsonb : Bytes → Bool) (is : List Input) (s : System) (i : ℕ) (e : DisputeRow)
    → Consistent s
    → submits_any is ≡ false
    → get_elem? (run is_jsonb is s).db.disputes i ≡ some e
    → is_sent e.state ≡ true
    → (d : DisputeRow) × (get_elem? s.db.disputes i ≡ some d) × (is_sent d.state ≡ true)
unfolding is_sent
run-is_sent j is s i e k q found h =
    let t = run j is s in
    by_place (
      backward (Lifecycle false) s.db.next_id t.db.next_id i s.db.disputes t.db.disputes e
        (subst (λ f. Grows (Lifecycle f) s.db t.db) q (run-Lifecycle j is s k)) found)
  where
    by_place :
        ((d : DisputeRow) × (get_elem? s.db.disputes i ≡ some d) × Trail (Lifecycle false) d e)
          ⊎ Born (Lifecycle false) e
        → (d : DisputeRow) × (get_elem? s.db.disputes i ≡ some d) × (is_sent d.state ≡ true)
    by_place (inl (d, place, p)) = (d, place, Trail-is_sent d e h p)
    by_place (inr (b, r, p)) = absurd (ground (arith, Trail-is_sent b e h p, r))
