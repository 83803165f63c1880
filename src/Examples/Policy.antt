-- ===== src/Examples/Policy.antt =====
-- The theorems on the worker's policy, at the sample alert and chargeback.
use dispute_router.Common.{◌≡◌, ◌↔◌, ◌*◌}
use dispute_router.Worker.Rules.{refund, decide}
use dispute_router.Worker.Rules.Policy.{MayRefund, decide-refund_iff}
use dispute_router.Examples.Sample.{second, candidate}

decide-refund_iff_example :
    ((decide candidate (50 * second)).action ≡ refund) ↔ MayRefund candidate (50 * second)
decide-refund_iff_example = decide-refund_iff candidate (50 * second)
