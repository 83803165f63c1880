-- ===== src/Ledger/Frame.antt =====
-- internal/ledger/postings.go: a posting touches the ledger's two tables and nothing else.
use dispute_router.Common.{
  ℕ, ◌≤◌, ◌≡◌, ◌∙◌, Bool, true, false, List, [], ◌∷◌, arith, map, filter_where,
}
use dispute_router.Common.Int.{pos, ltb_ℤ}
use dispute_router.Database.Schema.{LegRow}
use dispute_router.Database.Transaction.{ok, Session, later_fates}
use dispute_router.Database.Atomic.{bind-eq-ok}
use dispute_router.Ledger.{
  Entry, Posting, Journal, insert_leg_rows, insert_leg, insert_legs, insert_journal, write, leg_row,
  selects,
}
use dispute_router.Ledger.Balance.{Op, post, post-eq-write, journal_of}

pub record OnlyLedger (s s' : Session) : Type 0 where
  pub same_disputes : s'.db.disputes ≡ s.db.disputes
  pub same_charges : s'.db.charges ≡ s.db.charges
  pub same_events : s'.db.events ≡ s.db.events
  pub same_outbox : s'.db.outbox ≡ s.db.outbox
  pub same_deliveries : s'.db.deliveries ≡ s.db.deliveries
  pub same_now : s'.now ≡ s.now
  pub ids : s.db.next_id ≤ s'.db.next_id

OnlyLedger-trans : (s t u : Session) → OnlyLedger s t → OnlyLedger t u → OnlyLedger s u
OnlyLedger-trans s t u g h = record {
  same_disputes = h.same_disputes ∙ g.same_disputes;
  same_charges = h.same_charges ∙ g.same_charges;
  same_events = h.same_events ∙ g.same_events;
  same_outbox = h.same_outbox ∙ g.same_outbox;
  same_deliveries = h.same_deliveries ∙ g.same_deliveries;
  same_now = h.same_now ∙ g.same_now;
  ids = omega (arith, g.ids, h.ids);
}

insert_leg_rows-frame :
    (b : Bool) (id : ℕ) (rows : List LegRow) (s s' : Session)
    → insert_leg_rows b id rows s ≡ ok (tt, s')
    → OnlyLedger s s'
unfolding insert_leg_rows
insert_leg_rows-frame b id [] s s' h = ground arith
insert_leg_rows-frame false id (row ∷ rows) s s' h = ground arith
insert_leg_rows-frame true id (row ∷ rows) s s' h = ground arith

insert_leg-frame :
    (id : ℕ) (e : Entry) (p : Posting) (s s' : Session)
    → insert_leg id e p s ≡ ok (tt, s')
    → OnlyLedger s s'
unfolding insert_leg
insert_leg-frame id e p s s' h =
    let rows =
      map (leg_row id e p) (filter_where (selects e p.account p.merchant_scoped) s.db.accounts) in
    ground (
      arith,
      insert_leg_rows-frame (ltb_ℤ (pos 0) p.amount_minor) id rows
          (record s { fates = later_fates s.fates }) s',
    )

insert_legs-frame :
    (id : ℕ) (e : Entry) (ps : List Posting) (s s' : Session)
    → insert_legs id e ps s ≡ ok (tt, s')
    → OnlyLedger s s'
unfolding insert_legs
insert_legs-frame id e [] s s' h = ground arith
insert_legs-frame id e (p ∷ ps) s s' h =
    let (a, t, first, rest) = bind-eq-ok (insert_leg id e p) (λ _. insert_legs id e ps) s h in
    OnlyLedger-trans s t s' (insert_leg-frame id e p s t first)
      (insert_legs-frame id e ps t s' rest)

insert_journal-frame :
    (e : Entry) (j : Journal) (id : ℕ) (s s' : Session)
    → insert_journal e j s ≡ ok (id, s')
    → OnlyLedger s s'
unfolding insert_journal
insert_journal-frame e j id s s' h = ground arith

write-frame :
    (e : Entry) (j : Journal) (s s' : Session) → write e j s ≡ ok (tt, s') → OnlyLedger s s'
unfolding write
write-frame e j s s' h =
    let (id, t, first, rest) =
      bind-eq-ok (insert_journal e j) (λ n. insert_legs n e j.postings) s h in
    OnlyLedger-trans s t s' (insert_journal-frame e j id s t first)
      (insert_legs-frame id e j.postings t s' rest)

-- A posting that succeeds changes the ledger's two tables only.
pub post-frame :
    (op : Op) (e : Entry) (s s' : Session) → post op e s ≡ ok (tt, s') → OnlyLedger s s'
post-frame op e s s' h = write-frame e (journal_of op e) s s' (rw (post-eq-write op e) at h)
