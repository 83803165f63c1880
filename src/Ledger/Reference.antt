-- ===== src/Ledger/Reference.antt =====
-- internal/ledger/postings.go, `ref`: the key that makes a posting happen once.
use dispute_router.Common.{
  ℕ, ◌≡◌, refl, sym, ap, subst, inl, inr, ◌∙◌, Bool, true, false, List, [], ◌∷◌, arith, drop, ◌||◌,
  map, filter_where,
}
use dispute_router.Common.Bytes.{Bytes, bytes_eq, bytes_eq_refl}
use dispute_router.Common.Digits.{read, read-decimal}
use dispute_router.Database.Schema.{LegRow, Db}
use dispute_router.Database.Atomic.{bind-eq-ok, bind-err, begin_func-fails, begin_func-Ends}
use dispute_router.Common.Int.{ltb_ℤ, pos}
use dispute_router.Database.Transaction.{
  Error, unique_violation, driver_error, Fate, works, fails, unseen, next_fate, later_fates,
  session, ok, err, Session, begin_func,
}
use dispute_router.Ledger.{
  Entry, Journal, Posting, external_ref_of, has_ref, write, insert_journal, insert_legs, insert_leg,
  insert_leg_rows, leg_row, selects,
}
use dispute_router.Ledger.Balance.{Op, post, journal_of, post-eq-write}

-- What a reference says: the number behind "dispute:", and the rest.
decode : Bytes → ℕ × Bytes
decode r = read 0 (drop 8 r)

decode-ref : (i : ℕ) (k : Bytes) → decode (external_ref_of i k) ≡ (i, b':' ∷ k)
unfolding decode external_ref_of
decode-ref i k = read-decimal i b':' k refl

-- Two references are equal only if they are of the same dispute and of the same kind of entry.
pub ref_injective :
    (i j : ℕ) (k l : Bytes) → external_ref_of i k ≡ external_ref_of j l → (i ≡ j) × (k ≡ l)
ref_injective i j k l e =
    let same = sym (decode-ref i k) ∙ ap decode e ∙ decode-ref j l in
    (ap (λ p. p.0) same, ap (λ p. drop 1 p.1) same)

-- The legs leave the entries alone.
insert_leg_rows-journals :
    (b : Bool) (id : ℕ) (rows : List LegRow) (s s' : Session)
    → insert_leg_rows b id rows s ≡ ok (tt, s')
    → s'.db.journals ≡ s.db.journals
unfolding insert_leg_rows
insert_leg_rows-journals b id [] s s' h = ground arith
insert_leg_rows-journals false id (row ∷ rows) s s' h = ground arith
insert_leg_rows-journals true id (row ∷ rows) s s' h = ground arith

insert_leg-journals :
    (id : ℕ) (e : Entry) (p : Posting) (s s' : Session)
    → insert_leg id e p s ≡ ok (tt, s')
    → s'.db.journals ≡ s.db.journals
unfolding insert_leg
insert_leg-journals id e p s s' h = ground (
  arith,
  insert_leg_rows-journals (ltb_ℤ (pos 0) p.amount_minor) id
      (map (leg_row id e p) (filter_where (selects e p.account p.merchant_scoped) s.db.accounts))
      (record s { fates = later_fates s.fates }) s',
)

insert_legs-journals :
    (id : ℕ) (e : Entry) (ps : List Posting) (s s' : Session)
    → insert_legs id e ps s ≡ ok (tt, s')
    → s'.db.journals ≡ s.db.journals
unfolding insert_legs
insert_legs-journals id e [] s s' h = ground arith
insert_legs-journals id e (p ∷ ps) s s' h =
    let (a, t, first, rest) = bind-eq-ok (insert_leg id e p) (λ _. insert_legs id e ps) s h in
    insert_legs-journals id e ps t s' rest ∙ insert_leg-journals id e p s t first

-- The references on file after a posting: those before it, and its own.
insert_journal-refs :
    (e : Entry) (j : Journal) (s s' : Session) (id : ℕ) (r : Bytes)
    → insert_journal e j s ≡ ok (id, s')
    → has_ref r s'.db.journals ≡ (bytes_eq j.external_ref r || has_ref r s.db.journals)
unfolding has_ref insert_journal
insert_journal-refs e j s s' id r h = ground arith

pub has_ref-write :
    (e : Entry) (j : Journal) (s s' : Session) (r : Bytes)
    → write e j s ≡ ok (tt, s')
    → has_ref r s'.db.journals ≡ (bytes_eq j.external_ref r || has_ref r s.db.journals)
unfolding write
has_ref-write e j s s' r h =
    let (id, t, first, rest) =
      bind-eq-ok (insert_journal e j) (λ n. insert_legs n e j.postings) s h in
    rw (insert_legs-journals id e j.postings t s' rest) (insert_journal-refs e j s t id r first)

insert_journal-unused :
    (e : Entry) (j : Journal) (s s' : Session) (id : ℕ)
    → insert_journal e j s ≡ ok (id, s')
    → has_ref j.external_ref s.db.journals ≡ false
unfolding insert_journal
insert_journal-unused e j s s' id h = ground arith

-- A posting that succeeds finds its reference unused, and leaves it on file.
pub post-refs :
    (op : Op) (e : Entry) (s s' : Session)
    → post op e s ≡ ok (tt, s')
    → (has_ref (journal_of op e).external_ref s.db.journals ≡ false)
      × (has_ref (journal_of op e).external_ref s'.db.journals ≡ true)
unfolding write
post-refs op e s s' h =
    let j = journal_of op e in
    let k : write e j s ≡ ok (tt, s') = rw (post-eq-write op e) at h in
    let (id, t, first, rest) =
      bind-eq-ok (insert_journal e j) (λ n. insert_legs n e j.postings) s k in
    (
      insert_journal-unused e j s t id first,
      rw (has_ref-write e j s s' j.external_ref k, bytes_eq_refl j.external_ref),
    )

-- With its reference on file a posting fails.
insert_journal-taken :
    (e : Entry) (j : Journal) (s : Session)
    → has_ref j.external_ref s.db.journals ≡ true
    → (x : Error) × (insert_journal e j s ≡ err x)
unfolding insert_journal
insert_journal-taken e j s h = by_fate (next_fate s.fates) refl
  where
    by_fate : (f : Fate) → next_fate s.fates ≡ f → (x : Error) × (insert_journal e j s ≡ err x)
    by_fate works p = (unique_violation, ground arith)
    by_fate fails p = (driver_error, ground arith)
    by_fate unseen p = (driver_error, ground arith)

write-taken :
    (e : Entry) (j : Journal) (s : Session)
    → has_ref j.external_ref s.db.journals ≡ true
    → (x : Error) × (write e j s ≡ err x)
unfolding write
write-taken e j s h =
    let (x, p) = insert_journal-taken e j s h in
    (x, bind-err (insert_journal e j) (λ n. insert_legs n e j.postings) s x p)

-- A transaction that posts an entry.
pub record PostCall : Type 0 where
  pub op : Op
  pub entry : Entry
  pub fates : List Fate
  pub now : ℕ

unfoldable pub run_posts : List PostCall → Db → Db
run_posts [] db = db
run_posts (c ∷ cs) db = run_posts cs (begin_func (post c.op c.entry) c.fates c.now db).1

-- A transaction that posts forgets no reference, whatever its end.
begin_func-has_ref :
    (op : Op) (e : Entry) (fates : List Fate) (now : ℕ) (db : Db) (r : Bytes)
    → has_ref r db.journals ≡ true
    → has_ref r (begin_func (post op e) fates now db).1.journals ≡ true
begin_func-has_ref op e fates now db r h = elim (begin_func-Ends (post op e) now db fates) [
  | inl (x, k, same) ↦ subst (λ d. has_ref r d.journals ≡ true) (sym same) h
  | inr (tt, s, done, same, answer, balanced) ↦
      subst (λ d. has_ref r d.journals ≡ true) (sym same)
        (has_ref-write e (journal_of op e) (session db now (later_fates fates)) s r
            (rw (post-eq-write op e) at done)
          ∙ or_true (bytes_eq (journal_of op e).external_ref r) h)
]
  where
    or_true : (b : Bool) {c : Bool} → c ≡ true → (b || c) ≡ true
    or_true true e = refl
    or_true false e = e

run_posts-has_ref :
    (cs : List PostCall) (db : Db) (r : Bytes)
    → has_ref r db.journals ≡ true
    → has_ref r (run_posts cs db).journals ≡ true
unfolding run_posts
run_posts-has_ref [] db r h = h
run_posts-has_ref (c ∷ cs) db r h =
    run_posts-has_ref cs (begin_func (post c.op c.entry) c.fates c.now db).1 r
      (begin_func-has_ref c.op c.entry c.fates c.now db r h)

begin_func-filed :
    (op : Op) (e : Entry) (fates : List Fate) (now : ℕ) (db : Db)
    → (begin_func (post op e) fates now db).0 ≡ ok tt
    → has_ref (journal_of op e).external_ref (begin_func (post op e) fates now db).1.journals ≡ true
begin_func-filed op e fates now db h = elim (begin_func-Ends (post op e) now db fates) [
  | inl (x, k, same) ↦ absurd (ground (arith, h, k))
  | inr (tt, s, done, same, answer, balanced) ↦
      subst (λ d. has_ref (journal_of op e).external_ref d.journals ≡ true) (sym same)
        (post-refs op e (session db now (later_fates fates)) s done).1
]

-- Once a transaction has committed an entry, and whatever transactions have posted entries since, with any ends: a transaction that
-- posts an entry with the same reference fails and changes nothing, whatever its amount and its fates.
pub post-once :
    (op op' : Op) (e e' : Entry) (fates fates' : List Fate) (now later : ℕ) (since : List PostCall)
    (db : Db)
    → (begin_func (post op e) fates now db).0 ≡ ok tt
    → (journal_of op' e').external_ref ≡ (journal_of op e).external_ref
    → let after = run_posts since (begin_func (post op e) fates now db).1 in
      (x : Error) × (begin_func (post op' e') fates' later after ≡ (err x, after))
post-once op op' e e' fates fates' now later since db h same =
    let after = run_posts since (begin_func (post op e) fates now db).1 in
    begin_func-fails (post op' e') fates' later after λ rest. rw (post-eq-write op' e') (
      write-taken e' (journal_of op' e') (session after later rest) (
        subst (λ r. has_ref r after.journals ≡ true) (sym same)
          (run_posts-has_ref since (begin_func (post op e) fates now db).1
            (journal_of op e).external_ref (begin_func-filed op e fates now db h))))
