-- ===== src/Ledger/Balance.antt =====
-- internal/ledger/postings.go against the deferred trigger: the entries that the code posts balance.
use dispute_router.Common.{
  ℕ, suc, ◌+◌, ◌≤◌, ◌<◌, ◌≡◌, refl, sym, subst, ap, ◌∙◌, String, true, false, List, [], ◌∷◌, arith,
  length, All, filter_where,
}
use dispute_router.Common.Int.{ℤ, pos, ◌+ℤ◌, ◌-ℤ◌, ◌<ℤ◌, int_laws}
use dispute_router.Database.Schema.{AccountRow, LegRow, Direction, debit, credit}
use dispute_router.Database.Transaction.{ok, Session, Tx, delta, legs_of, is_balanced, all_balanced}
use dispute_router.Ledger.{
  Entry, Posting, Journal, selects, leg_row, insert_leg, insert_legs, insert_journal, write,
  has_ref, hold_journal, release_journal, loss_journal, refund_journal, hold, release_hold,
  settle_loss, refund, journal_row,
}

-- The one account that a posting selects.
abbrev pub Finds : Entry → List AccountRow → Posting → Type 0
Finds e accounts p =
    (a : AccountRow) × (filter_where (selects e p.account p.merchant_scoped) accounts ≡ a ∷ [])

abbrev Positive : Posting → Type 0
Positive p = pos 0 <ℤ p.amount_minor

-- Debits less credits, from `d` on.
shift : Direction → ℤ → ℤ → ℤ
shift debit n d = d +ℤ n
shift credit n d = d -ℤ n

net : List Posting → ℤ → ℤ
net [] d = d
net (p ∷ ps) d = net ps (shift p.direction p.amount_minor d)

-- The session after one leg went in.
abbrev with_leg : ℕ → LegRow → Session → Session
with_leg id row s = record s {
  db = record s.db { legs = row ∷ s.db.legs };
  fates = [];
  pending = id ∷ s.pending;
}

insert_leg-eq-ok :
    (id : ℕ) (e : Entry) (p : Posting) (s : Session) (a : AccountRow)
    → s.fates ≡ []
    → filter_where (selects e p.account p.merchant_scoped) s.db.accounts ≡ a ∷ []
    → Positive p
    → insert_leg id e p s ≡ ok (tt, with_leg id (leg_row id e p a) s)
unfolding insert_leg
insert_leg-eq-ok id e p s a f h q = ground arith

-- What the legs of a posting do to the entry that they belong to.
record Grown (id : ℕ) (ps : List Posting) (s s' : Session) : Type 0 where
  size : length (legs_of id s'.db.legs) ≡ length (legs_of id s.db.legs) + length ps
  sum : delta (legs_of id s'.db.legs) ≡ net ps (delta (legs_of id s.db.legs))
  touched : All (λ i. i ≡ id) s.pending → All (λ i. i ≡ id) s'.pending

with_leg-Grown :
    (id : ℕ) (e : Entry) (p : Posting) (s : Session) (a : AccountRow)
    → Grown id (p ∷ []) s (with_leg id (leg_row id e p a) s)
unfolding legs_of filter_where leg_row delta net shift
with_leg-Grown id e p s a = record {
  size = ground arith;
  sum = ground arith;
  touched = λ h. (refl, h);
}

Grown-trans :
    (id : ℕ) (p : Posting) (ps : List Posting) (s t u : Session)
    → Grown id (p ∷ []) s t
    → Grown id ps t u
    → Grown id (p ∷ ps) s u
unfolding net
Grown-trans id p ps s t u g h = record {
  size = omega (arith, g.size, h.size);
  sum = h.sum ∙ ap (net ps) g.sum;
  touched = λ k. h.touched (g.touched k);
}

insert_legs-Grown :
    (id : ℕ) (e : Entry) (ps : List Posting) (s : Session)
    → s.fates ≡ []
    → All (Finds e s.db.accounts) ps
    → All Positive ps
    → (s' : Session) × (insert_legs id e ps s ≡ ok (tt, s')) × Grown id ps s s'
unfolding insert_legs net
insert_legs-Grown id e [] s f fs qs =
    (s, refl, record { size = omega arith; sum = refl; touched = λ h. h })
insert_legs-Grown id e (p ∷ ps) s f ((a, one), fs) (q, qs) =
    let t = with_leg id (leg_row id e p a) s in
    let (u, done, grown) = insert_legs-Grown id e ps t refl fs qs in
    (
      u,
      rw (insert_leg-eq-ok id e p s a f one q) done,
      Grown-trans id p ps s t u (with_leg-Grown id e p s a) grown,
    )

-- No leg belongs to an entry that has no id yet.
abbrev pub FreshIds : List LegRow → ℕ → Type 0
FreshIds legs n = All (λ leg. leg.ledger_transaction_id < n) legs

legs_of-fresh : (id : ℕ) (legs : List LegRow) → FreshIds legs id → legs_of id legs ≡ []
unfolding legs_of filter_where
legs_of-fresh id [] h = refl
legs_of-fresh id (leg ∷ legs) (l, h) = ground (arith, legs_of-fresh id legs h)

all_balanced-one :
    (id : ℕ) (ids : List ℕ) (legs : List LegRow)
    → All (λ i. i ≡ id) ids
    → is_balanced (legs_of id legs) ≡ true
    → all_balanced ids legs ≡ true
unfolding all_balanced
all_balanced-one id [] legs h b = refl
all_balanced-one id (i ∷ ids) legs (e, h) b = rw (e, b) (all_balanced-one id ids legs h b)

is_balanced-zero :
    (legs : List LegRow) → 2 ≤ length legs → delta legs ≡ pos 0 → is_balanced legs ≡ true
unfolding is_balanced
is_balanced-zero [] h e = refl
is_balanced-zero (l ∷ legs) h e = rw e (ground arith)

-- Double entry, as the trigger asks for it.
record IsDouble (ps : List Posting) : Type 0 where
  enough : 2 ≤ length ps
  even : net ps (pos 0) ≡ pos 0

-- The session after the journal entry's row went in.
abbrev pub with_journal : Entry → Journal → Session → Session
with_journal e j s = record s {
  db = record s.db {
    journals = journal_row s.db.next_id e j ∷ s.db.journals;
    next_id = suc s.db.next_id;
  };
  fates = [];
}

pub insert_journal-eq-ok :
    (e : Entry) (j : Journal) (s : Session)
    → s.fates ≡ []
    → has_ref j.external_ref s.db.journals ≡ false
    → insert_journal e j s ≡ ok (s.db.next_id, with_journal e j s)
unfolding insert_journal
insert_journal-eq-ok e j s f new = ground arith

-- What has to hold before an entry can be posted: its reference is new, each of its legs finds its
-- one account, and no leg carries a journal id that is still to be drawn.
pub record CanPost (e : Entry) (j : Journal) (s : Session) : Type 0 where
  pub unused : has_ref j.external_ref s.db.journals ≡ false
  pub found : All (Finds e s.db.accounts) j.postings
  pub fresh : FreshIds s.db.legs s.db.next_id

-- A posting that succeeds and that the commit's trigger accepts, with all of its legs.
abbrev pub Posts : Tx (Unit {0}) → Journal → Session → Type 0
Posts body j s =
    (s' : Session) × (body s ≡ ok (tt, s'))
    × (all_balanced s'.pending s'.db.legs ≡ true)
    × (length (legs_of s.db.next_id s'.db.legs) ≡ length j.postings)
    × (delta (legs_of s.db.next_id s'.db.legs) ≡ pos 0)

-- The four entries, by name.
pub data Op : Type 0 where
  holds refunds loses : String → Op
  releases : Op

unfoldable pub post : Op → Entry → Tx (Unit {0})
unfolding hold release_hold settle_loss refund
post (holds reason) e = hold e reason
post releases e = release_hold e
post (loses why) e = settle_loss e why
post (refunds reason) e = refund e reason

unfoldable pub journal_of : Op → Entry → Journal
journal_of (holds reason) e = hold_journal e reason
journal_of releases e = release_journal e
journal_of (loses why) e = loss_journal e why
journal_of (refunds reason) e = refund_journal e reason

-- The legs of each entry are of positive amounts if the disputed amount is, and net to zero.
journal_of-Positive :
    (op : Op) (e : Entry) → pos 0 <ℤ e.amount_minor → All Positive (journal_of op e).postings
unfolding journal_of hold_journal release_journal loss_journal refund_journal
journal_of-Positive (holds reason) e h = omega arith
journal_of-Positive releases e h = omega arith
journal_of-Positive (loses why) e h = omega arith
journal_of-Positive (refunds reason) e h = omega arith

journal_of-IsDouble : (op : Op) (e : Entry) → IsDouble (journal_of op e).postings
unfolding journal_of hold_journal release_journal loss_journal refund_journal net shift
journal_of-IsDouble (holds reason) e = record { enough = omega arith; even = omega int_laws }
journal_of-IsDouble releases e = record { enough = omega arith; even = omega int_laws }
journal_of-IsDouble (loses why) e = record { enough = omega arith; even = omega int_laws }
journal_of-IsDouble (refunds reason) e = record { enough = omega arith; even = omega int_laws }

pub post-eq-write : (op : Op) (e : Entry) → post op e ≡ write e (journal_of op e)
unfolding post journal_of
post-eq-write (holds reason) e = refl
post-eq-write releases e = refl
post-eq-write (loses why) e = refl
post-eq-write (refunds reason) e = refl

module _ (e : Entry) (s : Session) (f : s.fates ≡ []) (pend : s.pending ≡ []) where
  write-Posts :
      (j : Journal)
      → CanPost e j s
      → All Positive j.postings
      → IsDouble j.postings
      → Posts (write e j) j s
  unfolding write delta
  write-Posts j can qs double =
      let id = s.db.next_id in
      let (u, done, grown) =
        insert_legs-Grown id e j.postings (with_journal e j s) refl can.found qs in
      let none_yet = legs_of-fresh id s.db.legs can.fresh in
      let size : length (legs_of id u.db.legs) ≡ length j.postings =
        omega (arith, grown.size, ap length none_yet) in
      let sum : delta (legs_of id u.db.legs) ≡ pos 0 =
        grown.sum ∙ ap (λ ls. net j.postings (delta ls)) none_yet ∙ double.even in
      let touched = grown.touched (subst (All (λ i. i ≡ id)) (sym pend) tt) in
      let fine = is_balanced-zero (legs_of id u.db.legs) (omega (arith, double.enough)) sum in
      (
        u,
        rw (insert_journal-eq-ok e j s f can.unused, write) done,
        all_balanced-one id u.pending u.db.legs touched fine,
        size,
        sum,
      )

  -- Each of the four entries that the platform posts, when it is about a positive amount, its
  -- reference is new and each leg finds its one account, is written with all its legs, and they
  -- balance: the check at the commit accepts them.
  pub post-balances :
      (op : Op)
      → pos 0 <ℤ e.amount_minor
      → CanPost e (journal_of op e) s
      → Posts (post op e) (journal_of op e) s
  post-balances op h can =
      rw (post-eq-write op e)
        (write-Posts (journal_of op e) can (journal_of-Positive op e h) (journal_of-IsDouble op e))
