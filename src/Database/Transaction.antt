-- ===== src/Database/Transaction.antt =====
-- A transaction as pgx.BeginFunc runs one: the body's statements one after the other, then the
-- commit, at which the deferred trigger of db/migrations/000002_ledger.up.sql looks at each journal
-- entry that got a leg. The network decides what becomes of each round trip.
use dispute_router.Common.{
  ℕ, Bool, true, false, ◌&&◌, List, [], ◌∷◌, length, filter_where, leb, ◌==◌, if◌then◌else◌,
}
use dispute_router.Common.Int.{ℤ, pos, ◌+ℤ◌, ◌-ℤ◌, leb_ℤ}
use dispute_router.Database.Schema.{Db, LegRow, debit, credit}

-- The errors that the modelled code returns or tells apart.
pub data Error : Type 0 where
  -- a statement, a begin or a commit that the server or the network refused
  driver_error check_violation unique_violation : Error
  stale_candidate not_found changes_no_state : Error
  unknown_merchant unknown_transaction not_represented : Error
  not_reviewable invalid_input : Error
  claim_lost assembly_failed drafting_failed verifying_failed recording_failed : Error

pub data Result {ℓ} (A : Type ℓ) : Type ℓ where
  ok : A → Result A
  err : Error → Result A

-- What becomes of one round trip. `unseen` is a commit that takes effect and whose answer is lost;
-- a statement of that fate is lost with its transaction.
pub data Fate : Type 0 where
  works fails unseen : Fate

-- What a transaction sees: its own view of the tables, its clock (`now()` stands still), the fates of
-- its round trips (those past the end work) and the journal entries with a pending trigger.
pub record Session : Type 0 where
  pub db : Db
  pub now : ℕ
  pub fates : List Fate
  pub pending : List ℕ

abbrev pub Tx : Type 0 → Type 0
Tx A = Session → Result (A × Session)

abbrev pub bind_result {ℓ κ} : {A : Type ℓ} {B : Type κ} → Result A → (A → Result B) → Result B
bind_result (ok a) f = f a
bind_result (err e) f = err e

infixl 5 ◌>>=◌ ◌>>◌
abbrev pub ◌>>=◌ : {A B : Type 0} → Tx A → (A → Tx B) → Tx B
◌>>=◌ m f s = bind_result (m s) (λ r. f r.0 r.1)

abbrev pub ◌>>◌ : {A B : Type 0} → Tx A → Tx B → Tx B
◌>>◌ m k = m >>= λ _. k

abbrev pub pure : {A : Type 0} → A → Tx A
pure a s = ok (a, s)

abbrev pub throw : {A : Type 0} → Error → Tx A
throw e s = err e

abbrev pub has_failed : Fate → Bool
has_failed works = false
has_failed fails = true
has_failed unseen = true

abbrev pub next_fate : List Fate → Fate
next_fate [] = works
next_fate (f ∷ fs) = f

abbrev pub later_fates : List Fate → List Fate
later_fates [] = []
later_fates (f ∷ fs) = fs

-- The answer to a statement, if the round trip works.
abbrev pub sent : {A : Type 0} → Fate → Result A → Result A
sent works r = r
sent fails r = err driver_error
sent unseen r = err driver_error

-- One statement: it reads the session, and changes tables and pending triggers.
abbrev pub statement : {A : Type 0} → (Session → Result (A × Session)) → Tx A
statement run s = sent (next_fate s.fates) (run (record s { fates = later_fates s.fates }))

-- SUM(CASE WHEN direction = 'debit' THEN amount_minor ELSE -amount_minor END)
unfoldable pub delta : List LegRow → ℤ
delta [] = pos 0
delta (leg ∷ legs) = elim leg.direction [
  | debit ↦ delta legs +ℤ leg.amount_minor
  | credit ↦ delta legs -ℤ leg.amount_minor
]

abbrev is_zero : ℤ → Bool
is_zero n = leb_ℤ n (pos 0) && leb_ℤ (pos 0) n

unfoldable pub legs_of : ℕ → List LegRow → List LegRow
legs_of id = filter_where (λ leg. leg.ledger_transaction_id == id)

-- `assert_ledger_balanced` for one journal entry.
unfoldable pub is_balanced : List LegRow → Bool
is_balanced [] = true
is_balanced (leg ∷ legs) = leb 2 (length (leg ∷ legs)) && is_zero (delta (leg ∷ legs))

unfoldable pub all_balanced : List ℕ → List LegRow → Bool
all_balanced [] legs = true
all_balanced (id ∷ ids) legs = is_balanced (legs_of id legs) && all_balanced ids legs

-- The commit's round trip, once the triggers have passed.
answer : {A : Type 0} → Fate → Db → A × Session → Result A × Db
answer works before (a, s) = (ok a, s.db)
answer fails before (a, s) = (err driver_error, before)
answer unseen before (a, s) = (err driver_error, s.db)

-- The commit: the deferred triggers, then the round trip. A body that failed is rolled back.
settle : {A : Type 0} → Db → Result (A × Session) → Result A × Db
unfolding answer
settle before (err e) = (err e, before)
settle before (ok (a, s)) =
    if all_balanced s.pending s.db.legs
    then answer (next_fate s.fates) before (a, s)
    else (err check_violation, before)

abbrev pub session : Db → ℕ → List Fate → Session
session db now fates = record { db = db; now = now; fates = fates; pending = [] }

begin_with : {A : Type 0} → Fate → Tx A → List Fate → ℕ → Db → Result A × Db
unfolding settle
begin_with works body fates now db = settle db (body (session db now fates))
begin_with fails body fates now db = (err driver_error, db)
begin_with unseen body fates now db = (err driver_error, db)

-- `pgx.BeginFunc`: begin, the body, and commit or rollback.
unfoldable pub begin_func : {A : Type 0} → Tx A → List Fate → ℕ → Db → Result A × Db
unfolding begin_with
begin_func body fates now db = begin_with (next_fate fates) body (later_fates fates) now db

-- A single statement outside any transaction.
unfoldable pub auto_commit : {A : Type 0} → Fate → Db → Result (A × Db) → Result A × Db
auto_commit works before (ok (a, db)) = (ok a, db)
auto_commit unseen before (ok (a, db)) = (err driver_error, db)
auto_commit fails before (ok (a, db)) = (err driver_error, before)
auto_commit f before (err e) = (sent f (err e), before)
