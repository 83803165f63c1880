-- ===== src/Ledger/Legs.antt =====
-- internal/ledger/postings.go, `write`: the row and the legs that an entry brings.
use dispute_router.Common.{
  ℕ, ◌≡◌, ◌∙◌, Bool, true, false, List, [], ◌∷◌, ◌++◌, arith, map, filter_where,
}
use dispute_router.Common.Int.{ltb_ℤ, pos}
use dispute_router.Database.Schema.{AccountRow, LegRow, Db}
use dispute_router.Database.Atomic.{bind-eq-ok, sent-eq-ok}
use dispute_router.Database.Transaction.{ok, Session, next_fate, later_fates}
use dispute_router.Ledger.{
  Entry, Journal, Posting, write, insert_journal, insert_legs, insert_leg, insert_leg_rows, leg_row,
  selects, journal_row,
}

-- The legs on file once these postings are made: for each, a leg on every account of its kind, its owner and its currency, of its
-- direction and its amount.
unfoldable pub legs_for : ℕ → Entry → List AccountRow → List Posting → List LegRow → List LegRow
legs_for id e accounts [] legs = legs
legs_for id e accounts (p ∷ ps) legs =
    legs_for id e accounts ps
      (map (leg_row id e p) (filter_where (selects e p.account p.merchant_scoped) accounts) ++ legs)

insert_leg_rows-legs :
    (b : Bool) (id : ℕ) (rows : List LegRow) (s s' : Session)
    → insert_leg_rows b id rows s ≡ ok (tt, s')
    → (s'.db.legs ≡ rows ++ s.db.legs)
      × (s'.db.accounts ≡ s.db.accounts)
      × (s'.db.journals ≡ s.db.journals)
unfolding insert_leg_rows
insert_leg_rows-legs b id [] s s' h = (ground arith, ground arith, ground arith)
insert_leg_rows-legs false id (row ∷ rows) s s' h = absurd (ground arith)
insert_leg_rows-legs true id (row ∷ rows) s s' h = (ground arith, ground arith, ground arith)

insert_leg-legs :
    (id : ℕ) (e : Entry) (p : Posting) (s s' : Session)
    → insert_leg id e p s ≡ ok (tt, s')
    → (s'.db.legs
        ≡ map (leg_row id e p) (filter_where (selects e p.account p.merchant_scoped) s.db.accounts)
          ++ s.db.legs)
      × (s'.db.accounts ≡ s.db.accounts)
      × (s'.db.journals ≡ s.db.journals)
unfolding insert_leg
insert_leg-legs id e p s s' h =
    insert_leg_rows-legs (ltb_ℤ (pos 0) p.amount_minor) id
      (map (leg_row id e p) (filter_where (selects e p.account p.merchant_scoped) s.db.accounts))
      (record s { fates = later_fates s.fates }) s' (sent-eq-ok (next_fate s.fates) _ h)

insert_legs-legs :
    (id : ℕ) (e : Entry) (ps : List Posting) (s s' : Session)
    → insert_legs id e ps s ≡ ok (tt, s')
    → (s'.db.legs ≡ legs_for id e s.db.accounts ps s.db.legs) × (s'.db.journals ≡ s.db.journals)
unfolding insert_legs legs_for
insert_legs-legs id e [] s s' h = (ground arith, ground arith)
insert_legs-legs id e (p ∷ ps) s s' h =
    let (a, t, first, rest) = bind-eq-ok (insert_leg id e p) (λ _. insert_legs id e ps) s h in
    let (legs, accounts, journals) = insert_leg-legs id e p s t first in
    let (legs', journals') = insert_legs-legs id e ps t s' rest in
    (legs' ∙ (λ i. legs_for id e (accounts i) ps (legs i)), journals' ∙ journals)

insert_journal-row :
    (e : Entry) (j : Journal) (s s' : Session) (id : ℕ)
    → insert_journal e j s ≡ ok (id, s')
    → (s'.db.journals ≡ journal_row id e j ∷ s.db.journals)
      × (s'.db.legs ≡ s.db.legs)
      × (s'.db.accounts ≡ s.db.accounts)
unfolding insert_journal
insert_journal-row e j s s' id h = ground arith

-- What an entry that went in has added.
unfoldable pub Adds : Entry → Journal → Db → Db → Type 0
Adds e j db db' =
    (id : ℕ) × (db'.journals ≡ journal_row id e j ∷ db.journals)
    × (db'.legs ≡ legs_for id e db.accounts j.postings db.legs)

pub write-Adds :
    (e : Entry) (j : Journal) (s s' : Session) → write e j s ≡ ok (tt, s') → Adds e j s.db s'.db
unfolding write Adds
write-Adds e j s s' h =
    let (id, t, first, rest) =
      bind-eq-ok (insert_journal e j) (λ n. insert_legs n e j.postings) s h in
    let (row, legs, accounts) = insert_journal-row e j s t id first in
    let (legs', journals) = insert_legs-legs id e j.postings t s' rest in
    (id, journals ∙ row, legs' ∙ (λ i. legs_for id e (accounts i) j.postings (legs i)))
