-- ===== src/Ledger/Missing.antt =====
-- internal/ledger/postings.go, `write`: what it does when a leg finds no account.
use dispute_router.Common.{
  ℕ, ◌≡◌, refl, false, List, [], ◌∷◌, arith, All, filter_where, length, suc,
}
use dispute_router.Database.Schema.{AccountRow}
use dispute_router.Database.Transaction.{ok, Session}
use dispute_router.Ledger.{Entry, Posting, selects, insert_leg, insert_legs, write, has_ref}
use dispute_router.Ledger.Balance.{
  Op, post, journal_of, post-eq-write, with_journal, insert_journal-eq-ok,
}

abbrev pub FindsNone : Entry → List AccountRow → Posting → Type 0
FindsNone e accounts p = filter_where (selects e p.account p.merchant_scoped) accounts ≡ []

insert_leg-none :
    (id : ℕ) (e : Entry) (p : Posting) (s : Session)
    → s.fates ≡ []
    → FindsNone e s.db.accounts p
    → insert_leg id e p s ≡ ok (tt, record s { fates = [] })
unfolding insert_leg
insert_leg-none id e p s f h = ground arith

insert_legs-none :
    (id : ℕ) (e : Entry) (ps : List Posting) (s : Session)
    → s.fates ≡ []
    → All (FindsNone e s.db.accounts) ps
    → insert_legs id e ps s ≡ ok (tt, record s { fates = [] })
unfolding insert_legs
insert_legs-none id e [] s f h = ground arith
insert_legs-none id e (p ∷ ps) s f (q, h) =
    rw (insert_leg-none id e p s f q) (insert_legs-none id e ps (record s { fates = [] }) refl h)

-- An entry none of whose legs finds an account goes in as a row with no leg at all: the statement
-- succeeds, the legs stay as they were, and no check is pending for the commit.
pub post-unmatched :
    (op : Op) (e : Entry) (s : Session)
    → s.fates ≡ []
    → has_ref (journal_of op e).external_ref s.db.journals ≡ false
    → All (FindsNone e s.db.accounts) (journal_of op e).postings
    → (s' : Session) × (post op e s ≡ ok (tt, s'))
      × (s'.db.legs ≡ s.db.legs)
      × (s'.pending ≡ s.pending)
      × (length s'.db.journals ≡ suc (length s.db.journals))
post-unmatched op e s f new h = (with_journal e (journal_of op e) s, posted, refl, refl, refl)
  where
    written : write e (journal_of op e) s ≡ ok (tt, with_journal e (journal_of op e) s)
    written =
        unfold write in
        rw (insert_journal-eq-ok e (journal_of op e) s f new) (
          insert_legs-none s.db.next_id e (journal_of op e).postings
            (with_journal e (journal_of op e) s) refl h)

    posted : post op e s ≡ ok (tt, with_journal e (journal_of op e) s)
    posted = rw (post-eq-write op e) written
