-- ===== src/Worker/Store/Covered.antt =====
-- internal/worker/store.go, `addRefundToTransaction`: no charge is refunded beyond what it captured.
use dispute_router.Common.{
  ℕ, ◌≡◌, sym, subst, inl, inr, Bool, true, Option, none, some, List, [], ◌∷◌, map, arith, All,
  filter_where, update_where, Bool-cases,
}
use dispute_router.Common.Int.{pos, ◌≤ℤ◌}
use dispute_router.Database.Schema.{Db, ChargeRow, DisputeRow}
use dispute_router.Dispute.{Kind, alert, chargeback, other_kind}
use dispute_router.Worker.Rules.{Action, refund, close, escalate, expire, skip}
use dispute_router.Worker.Store.{Loaded, charge_check, all_check, add_refund}
use dispute_router.Worker.Store.Steps.{charge_of, refund_charges, RefundFits}
use dispute_router.Worker.Store.Effect.{MovesMoney, apply-all_or_nothing}
use dispute_router.Worker.Store.Once.{Call, apply_call, run_calls}

-- Between nothing and the captured amount.
abbrev pub Covered : ChargeRow → Type 0
Covered t = (pos 0 ≤ℤ t.refunded_minor) × (t.refunded_minor ≤ℤ t.amount_minor)

charge_check-Covered : (t : ChargeRow) → charge_check t ≡ true → Covered t
unfolding charge_check
charge_check-Covered t h = ground arith

update-Covered :
    (p : ChargeRow → Bool) (f : ChargeRow → ChargeRow) (ts : List ChargeRow)
    → all_check (map f (filter_where p ts)) ≡ true
    → All Covered ts
    → All Covered (update_where p f ts)
unfolding all_check filter_where update_where
update-Covered p f [] e h = tt
update-Covered p f (t ∷ ts) e (c, h) = elim (Bool-cases (p t)) [
  | inl hit ↦
      rw hit (charge_check-Covered (f t) (ground arith), update-Covered p f ts (ground arith) h)
  | inr miss ↦ rw miss (c, update-Covered p f ts (ground arith) h)
]

refund_charges-Covered :
    (l : Loaded) (o : Option DisputeRow) (ts : List ChargeRow)
    → RefundFits l o ts
    → All Covered ts
    → All Covered (refund_charges l o ts)
unfolding add_refund
refund_charges-Covered l none ts fits h = h
refund_charges-Covered l (some d) ts fits h = update-Covered _ (add_refund l.amount_minor) ts fits h

MovesMoney-Covered :
    (a : Action) (k : Kind) (l : Loaded) (now : ℕ) (db db' : Db)
    → MovesMoney a k l now db db'
    → All Covered db.charges
    → All Covered db'.charges
MovesMoney-Covered refund k l now db db' (booked, same, fits) h =
    subst (All Covered) (sym same)
      (refund_charges-Covered l (charge_of l db'.disputes) db.charges fits h)
MovesMoney-Covered expire chargeback l now db db' (booked, same) h =
    subst (All Covered) (sym same) h
MovesMoney-Covered expire alert l now db db' (j, g, same) h = subst (All Covered) (sym same) h
MovesMoney-Covered expire (other_kind k) l now db db' (j, g, same) h =
    subst (All Covered) (sym same) h
MovesMoney-Covered close k l now db db' (j, g, same) h = subst (All Covered) (sym same) h
MovesMoney-Covered escalate k l now db db' (j, g, same) h = subst (All Covered) (sym same) h
MovesMoney-Covered skip k l now db db' (j, g, same) h = subst (All Covered) (sym same) h

apply-Covered :
    (c : Call) (db : Db) → All Covered db.charges → All Covered (apply_call c db).1.charges
apply-Covered c db h = elim (apply-all_or_nothing c.loaded c.decision c.worker c.fates c.now db) [
  | inl (x, e, same) ↦ subst (λ d. All Covered d.charges) (sym same) h
  | inr (a, answer) ↦
      MovesMoney-Covered c.decision.action c.loaded.kind c.loaded c.now db (apply_call c db).1
        a.money h
]

-- No sequence of decisions, by any workers on any readings and with any fates, leaves a charge
-- refunded for more than it captured, or for less than nothing.
run_calls-Covered :
    (cs : List Call) (db : Db) → All Covered db.charges → All Covered (run_calls cs db).charges
unfolding run_calls
run_calls-Covered [] db h = h
run_calls-Covered (c ∷ cs) db h = run_calls-Covered cs (apply_call c db).1 (apply-Covered c db h)
