-- ===== src/Examples/Pool.antt =====
-- The theorems on the deadline index, the locks and the pool, at small inputs.
use dispute_router.Common.{
  ◌≡◌, refl, ◌≢◌, ◌⊎◌, ◌≤◌, ◌*◌, List, [], ◌∷◌, true, none, some, All, arith, length, false,
  if◌then◌else◌, find_where,
}
use dispute_router.Common.Bytes.{Bytes}
use dispute_router.Database.Transaction.{works, ok}
use dispute_router.Worker.Deadlines.{ZSet, of_id, claim_due, is_in}
use dispute_router.Worker.Deadlines.Index.{score_of, claim_due-takes}
use dispute_router.Worker.Locks.{LockKey, Lock, acquire, release, holder}
use dispute_router.Worker.Locks.Exclusion.{Other, run_others, acquire-excludes}
use dispute_router.Worker.Pool.{handle}
use dispute_router.Worker.Pool.Visit.{OutOfReach, handle-OutOfReach}
use dispute_router.Worker.Pool.Handle.{Untouched, handle-justified}
use dispute_router.Examples.Sample.{second, sample_db, options, round, world}

abbrev three : ZSet
three =
    record { member = of_id 7; score = 10 }
    ∷ record { member = of_id 8; score = 20 }
    ∷ record { member = of_id 9; score = 90 }
    ∷ []

claim_due-takes_example :
    let (ids, rest) = claim_due 30 5 three in
    (length ids ≤ 5)
    × All (λ x. x.score ≤ 30) ids
    × (score_of (of_id 7) rest ≡ (if is_in (of_id 7) ids then none else score_of (of_id 7) three))
    × ((is_in (of_id 7) ids ≡ false) ⊎ (is_in (of_id 7) (claim_due 40 5 rest).0 ≡ false))
claim_due-takes_example = claim_due-takes 30 5 three (of_id 7) 40 5

abbrev token : Bytes
token = 1 ∷ []

abbrev other : Bytes
other = 2 ∷ []

token-ne-other : token ≢ other
token-ne-other e = ground arith

abbrev mine : Lock
mine = record { dispute_id = 7; token = token }

-- In between another worker tries this dispute, and takes and releases another.
abbrev others : List Other
others =
    record { is_release = false; ttl = 30; dispute_id = 7; token = other; fate = works; at = 3 }
    ∷ record { is_release = false; ttl = 30; dispute_id = 8; token = other; fate = works; at = 4 }
    ∷ record { is_release = true; ttl = 30; dispute_id = 8; token = other; fate = works; at = 5 }
    ∷ []

abbrev held_keys : List LockKey
held_keys = run_others others (acquire 30 (some token) works 7 0 []).1

acquire-excludes_example :
    (holder 7 0 [] ≡ none)
    × ((k : LockKey) × (holder 7 10 held_keys ≡ some k) × (k.token ≡ token))
    × ((acquire 30 (some other) works 7 10 held_keys).1 ≡ held_keys)
    × ((acquire 30 (some other) works 7 10 held_keys).0 ≢ ok (some mine))
    × ((release (record { dispute_id = 7; token = other }) works 10 held_keys).1 ≡ held_keys)
unfolding acquire holder find_where
acquire-excludes_example =
    acquire-excludes 30 7 0 10 token other [] _ mine mine works works others refl
      (
        (omega arith, token-ne-other),
        ((omega arith, token-ne-other), ((omega arith, token-ne-other), tt)),
      )
      (omega arith) token-ne-other

handle-OutOfReach_example : OutOfReach options (50 * second) 7 (handle options round 7 world).index
unfolding score_of
handle-OutOfReach_example = handle-OutOfReach options round 7 (50 * second) (omega arith) world refl

handle-justified_example : Untouched options round 7 sample_db (handle options round 7 world).db
handle-justified_example = handle-justified options round 7 world
