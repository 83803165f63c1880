-- ===== src/Examples/Tests.antt =====
-- Runs of the definitions at small inputs.
use dispute_router.Common.{◌≡◌, refl, ◌*◌}
use dispute_router.Common.Bytes.{codes, decimal, digits_from}
use dispute_router.Ledger.{external_ref_of}
use dispute_router.Worker.Rules.{category_of, service, unknown, decide, refund}
use dispute_router.Examples.Sample.{second, candidate}

ref_text : external_ref_of 1234 (codes "hold") ≡ codes "dispute:1234:hold"
unfolding external_ref_of decimal digits_from
ref_text = refl

known_code : category_of "13.1" ≡ service
unfolding category_of
known_code = refl

unknown_code : category_of "99" ≡ unknown
unfolding category_of
unknown_code = refl

alert_refunded : (decide candidate (50 * second)).action ≡ refund
unfolding decide
alert_refunded = refl
