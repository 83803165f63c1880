-- ===== src/Worker/Deadlines.antt =====
-- internal/worker/deadlines.go: the deadline index, a Redis sorted set.
-- A score is the deadline in whole seconds. The code's unix times differ from these by a constant,
-- since instants count from Go's zero time. The set is kept in Redis's order.
pub mod Index
use dispute_router.Common.{
  ℕ, ◌/◌, Bool, true, false, not, ◌&&◌, ◌||◌, List, [], ◌∷◌, map, Option, none, some, take,
  filter_where, ltb, leb, ◌==◌, if◌then◌else◌,
}
use dispute_router.Common.Bytes.{Bytes, decimal, bytes_eq}
use dispute_router.Database.Transaction.{driver_error, Result, ok, err, Fate, works, fails, unseen}

-- A member: the text of an id, as FormatInt writes it, or a text that ParseInt refuses.
pub data Member : Type 0 where
  of_id : ℕ → Member
  junk : Bytes → Member

pub record ZEntry : Type 0 where
  pub member : Member
  pub score : ℕ

abbrev pub ZSet : Type 0
ZSet = List ZEntry

unfoldable pub member_eq : Member → Member → Bool
member_eq (of_id a) (of_id b) = a == b
member_eq (junk s) (junk t) = bytes_eq s t
member_eq (of_id a) (junk t) = false
member_eq (junk s) (of_id b) = false

member_text : Member → Bytes
member_text (of_id a) = decimal a
member_text (junk s) = s

lex_lt : Bytes → Bytes → Bool
lex_lt [] [] = false
lex_lt [] (b ∷ t) = true
lex_lt (a ∷ s) [] = false
lex_lt (a ∷ s) (b ∷ t) = let rest = lex_lt s t in ltb a b || (a == b && rest)

-- By score, then by the member's bytes.
unfoldable pub before : ZEntry → ZEntry → Bool
unfolding lex_lt member_text
before a b =
    ltb a.score b.score
    || (a.score == b.score && lex_lt (member_text a.member) (member_text b.member))

unfoldable pub insert_sorted : ZEntry → ZSet → ZSet
insert_sorted e [] = e ∷ []
insert_sorted e (x ∷ xs) =
    let rest = insert_sorted e xs in if before e x then e ∷ (x ∷ xs) else x ∷ rest

unfoldable pub zrem : Member → ZSet → ZSet
zrem m = filter_where (λ x. not (member_eq x.member m))

-- ZADD of one member.
unfoldable pub zadd : ZEntry → ZSet → ZSet
unfolding insert_sorted zrem
zadd e z = insert_sorted e (zrem e.member z)

abbrev pub nanos_per_second : ℕ
nanos_per_second = 1000000000

-- `at.Unix()`.
abbrev pub unix : ℕ → ℕ
unix at = at / nanos_per_second

unfoldable pub entry_at : ℕ → ℕ → ZEntry
entry_at id at = record { member = of_id id; score = unix at }

-- A write to Redis. One whose answer was lost took effect.
abbrev pub written : Fate → ZSet → ZSet → Result (Unit {0}) × ZSet
written works old new = (ok tt, new)
written fails old new = (err driver_error, old)
written unseen old new = (err driver_error, new)

-- `Schedule`.
unfoldable pub schedule : ℕ → ℕ → Fate → ZSet → Result (Unit {0}) × ZSet
unfolding entry_at
schedule id at fate z = written fate z (zadd (entry_at id at) z)

zadd_all : List (ℕ × ℕ) → ZSet → ZSet
unfolding entry_at
zadd_all [] z = z
zadd_all ((id, at) ∷ entries) z = zadd_all entries (zadd (entry_at id at) z)

-- `ScheduleMany`; an empty map makes no call.
unfoldable pub schedule_many : List (ℕ × ℕ) → Fate → ZSet → Result (Unit {0}) × ZSet
unfolding zadd_all
schedule_many [] fate z = (ok tt, z)
schedule_many (e ∷ entries) fate z = written fate z (zadd_all (e ∷ entries) z)

unfoldable pub is_in : Member → ZSet → Bool
is_in m [] = false
is_in m (x ∷ xs) = member_eq x.member m || is_in m xs

-- ZRANGEBYSCORE key -inf upto LIMIT 0 limit.
unfoldable pub due : ℕ → ℕ → ZSet → ZSet
due upto limit z = take limit (filter_where (λ x. leb x.score upto) z)

-- The script `claimDue`: what it returns, and the set without it.
unfoldable pub claim_due : ℕ → ℕ → ZSet → ZSet × ZSet
claim_due upto limit z =
    let ids = due upto limit z in (ids, filter_where (λ x. not (is_in x.member ids)) z)

-- The members that ParseInt accepts.
unfoldable pub parse_ids : ZSet → List ℕ
parse_ids [] = []
parse_ids (x ∷ xs) = let rest = parse_ids xs in elim x.member [ of_id n ↦ n ∷ rest | junk s ↦ rest ]

claim_answer : Fate → ZSet → ZSet × ZSet → Result (List ℕ) × ZSet
claim_answer works z (ids, rest) = (ok (parse_ids ids), rest)
claim_answer fails z (ids, rest) = (err driver_error, z)
claim_answer unseen z (ids, rest) = (err driver_error, rest)

-- `Claim`.
unfoldable pub claim : ℕ → ℕ → Fate → ZSet → Result (List ℕ) × ZSet
unfolding claim_answer
claim upto limit fate z = claim_answer fate z (claim_due (unix upto) limit z)
