-- ===== src/Examples/Store.antt =====
-- The theorems on the worker's write path, at the sample database.
use dispute_router.Common.{◌≡◌, refl, ◌⊎◌, ◌*◌, []}
use dispute_router.Database.Transaction.{Error, driver_error, ok, err}
use dispute_router.Worker.Rules.{decide}
use dispute_router.Worker.Store.{apply}
use dispute_router.Worker.Store.Effect.{Applied, apply-all_or_nothing}
use dispute_router.Worker.Store.Once.{Call, apply_call, run_calls, apply-once}
use dispute_router.Examples.Sample.{second, sample_db, candidate, reading}

abbrev refund_call : Call
refund_call = record {
  loaded = reading;
  decision = decide candidate (50 * second);
  worker = "w1";
  fates = [];
  now = 50 * second;
}

apply-all_or_nothing_example :
    let (r, db') = apply reading (decide candidate (50 * second)) "w1" [] (50 * second) sample_db in
    ((x : Error) × (r ≡ err x) × (db' ≡ sample_db))
    ⊎ (Applied reading (decide candidate (50 * second)) "w1" (50 * second) sample_db db'
        × ((r ≡ ok tt) ⊎ (r ≡ err driver_error)))
apply-all_or_nothing_example =
    apply-all_or_nothing reading (decide candidate (50 * second)) "w1" [] (50 * second) sample_db

apply-once_example :
    ((apply_call refund_call sample_db).1 ≡ sample_db)
    ⊎ ((x : Error) × (apply_call refund_call (run_calls [] (apply_call refund_call sample_db).1)
          ≡ (err x, run_calls [] (apply_call refund_call sample_db).1)))
apply-once_example = apply-once refund_call refund_call [] sample_db refl (refl, (refl, tt))
