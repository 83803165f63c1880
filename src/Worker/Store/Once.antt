-- ===== src/Worker/Store/Once.antt =====
-- internal/worker/store.go: the version check, which lets one reading of a dispute act once.
use dispute_router.Common.{
  ℕ, ◌≡◌, refl, sym, subst, ◌⊎◌, inl, inr, String, Bool, true, false, not, List, [], ◌∷◌, none,
  some, Option, arith, All, All-map, All-update_where, find_where, find_where-All-none, ltb, leb,
  ◌==◌, if◌then◌else◌,
}
use dispute_router.Database.Schema.{Db, DisputeRow}
use dispute_router.Database.Transaction.{
  Error, driver_error, stale_candidate, changes_no_state, Result, err, Fate, works, fails, unseen,
  next_fate, Session, session,
}
use dispute_router.Database.Atomic.{bind-err, begin_func-fails}
use dispute_router.Dispute.{State, state_eq, represented}
use dispute_router.Worker.Rules.{Decision}
use dispute_router.Worker.Store.{
  Loaded, is_version, moved, update_dispute, update_row, apply_to, apply_tx, apply,
}
use dispute_router.Worker.Store.Effect.{Applied, apply-all_or_nothing}

-- The row is at the loaded version or past it, as it is while versions only grow.
abbrev pub seen : Loaded → DisputeRow → Bool
seen l d = if d.id == l.id then leb l.version d.version else true

-- The row is past the loaded version.
abbrev pub past : Loaded → DisputeRow → Bool
past l d = if d.id == l.id then ltb l.version d.version else true

abbrev pub AllSeen : Loaded → Db → Type 0
AllSeen l db = All (λ d. seen l d ≡ true) db.disputes

abbrev pub AllPast : Loaded → Db → Type 0
AllPast l db = All (λ d. past l d ≡ true) db.disputes

-- One call of `Store.apply`, with the fates of its round trips.
pub record Call : Type 0 where
  pub loaded : Loaded
  pub decision : Decision
  pub worker : String
  pub fates : List Fate
  pub now : ℕ

abbrev pub apply_call : Call → Db → Result (Unit {0}) × Db
apply_call c = apply c.loaded c.decision c.worker c.fates c.now

-- The calls of any number of workers, in the order in which their transactions commit.
unfoldable pub run_calls : List Call → Db → Db
run_calls [] db = db
run_calls (c ∷ cs) db = run_calls cs (apply_call c db).1

module _ (l : Loaded) (b : Bool) (to : State) (now : ℕ) (d : DisputeRow) where
  moved-past : is_version l d ≡ true → seen l d ≡ true → past l (moved to b now d) ≡ true
  unfolding is_version moved
  moved-past h k = ground arith

  unmoved-past : is_version l d ≡ false → seen l d ≡ true → past l d ≡ true
  unfolding is_version
  unmoved-past h k = ground arith

  past-moved : past l d ≡ true → past l (moved to b now d) ≡ true
  unfolding moved
  past-moved h = ground arith

  past-is_version : past l d ≡ true → is_version l d ≡ false
  unfolding is_version
  past-is_version h = ground arith

-- Once applied, the reading is past.
Applied-AllPast :
    (l : Loaded) (d : Decision) (w : String) (now : ℕ) (db db' : Db)
    → Applied l d w now db db'
    → AllSeen l db
    → AllPast l db'
Applied-AllPast l d w now db db' a h =
    let f = moved a.to (not (state_eq a.to represented)) now in
    subst (All (λ r. past l r ≡ true)) (sym a.disputes) (
      All-update_where _ _ (is_version l) f db.disputes (moved-past l _ a.to now)
        (unmoved-past l true a.to now) h)

-- What is past stays past.
apply-AllPast : (l : Loaded) (c : Call) (db : Db) → AllPast l db → AllPast l (apply_call c db).1
apply-AllPast l c db h = elim (apply-all_or_nothing c.loaded c.decision c.worker c.fates c.now db) [
  | inl (x, e, same) ↦ subst (AllPast l) (sym same) h
  | inr (a, answer) ↦ subst (All (λ r. past l r ≡ true)) (sym a.disputes) (
      All-update_where _ _ (is_version c.loaded)
        (moved a.to (not (state_eq a.to represented)) c.now) db.disputes
        (λ r e k. past-moved l _ a.to c.now r k) (λ r e k. k) h)
]

run_calls-AllPast :
    (l : Loaded) (cs : List Call) (db : Db) → AllPast l db → AllPast l (run_calls cs db)
unfolding run_calls
run_calls-AllPast l [] db h = h
run_calls-AllPast l (c ∷ cs) db h =
    run_calls-AllPast l cs (apply_call c db).1 (apply-AllPast l c db h)

-- A reading that is past can no longer be acted on.
update_dispute-stale :
    (l : Loaded) (to : State) (b : Bool) (s : Session)
    → AllPast l s.db
    → (x : Error) × (update_dispute l to b s ≡ err x)
unfolding update_dispute update_row
update_dispute-stale l to b s h = by_fate (next_fate s.fates) refl
  where
    gone : find_where (is_version l) s.db.disputes ≡ none
    gone =
        find_where-All-none (is_version l) s.db.disputes
          (All-map _ _ s.db.disputes (past-is_version l b to s.now) h)

    by_fate : (f : Fate) → next_fate s.fates ≡ f → (x : Error) × (update_dispute l to b s ≡ err x)
    by_fate works e = (stale_candidate, ground (arith, gone))
    by_fate fails e = (driver_error, ground arith)
    by_fate unseen e = (driver_error, ground arith)

apply_to-stale :
    (o : Option State) (l : Loaded) (d : Decision) (w : String) (s : Session)
    → AllPast l s.db
    → (x : Error) × (apply_to o l d w s ≡ err x)
unfolding apply_to
apply_to-stale none l d w s h = (changes_no_state, refl)
apply_to-stale (some to) l d w s h =
    let (x, e) = update_dispute-stale l to (not (state_eq to represented)) s h in
    (x, bind-err (update_dispute l to (not (state_eq to represented))) _ s x e)

-- One reading of a dispute acts at most once. After a call that took effect, also one whose commit
-- went unseen, and after any further calls by any workers, another call on the same reading fails
-- and changes nothing, whatever it decides. (No row may be behind the version that was read.)
pub apply-once :
    (c c' : Call) (cs : List Call) (db : Db)
    → c'.loaded ≡ c.loaded
    → AllSeen c.loaded db
    → ((apply_call c db).1 ≡ db)
      ⊎ ((x : Error) × (apply_call c' (run_calls cs (apply_call c db).1)
            ≡ (err x, run_calls cs (apply_call c db).1)))
unfolding apply apply_tx
apply-once c c' cs db same h =
    elim (apply-all_or_nothing c.loaded c.decision c.worker c.fates c.now db) [
      | inl (x, e, kept) ↦ inl kept
      | inr (a, answer) ↦
          let db₁ = (apply_call c db).1 in
          let past₁ = Applied-AllPast c.loaded c.decision c.worker c.now db db₁ a h in
          let past₂ = run_calls-AllPast c.loaded cs db₁ past₁ in
          inr (
            begin_func-fails (apply_tx c'.loaded c'.decision c'.worker) c'.fates c'.now
              (run_calls cs db₁)
              λ later.
                apply_to-stale c'.decision.to_state c'.loaded c'.decision c'.worker
                  (session (run_calls cs db₁) c'.now later) (rw same past₂))
    ]
