-- ===== src/Examples/Requests.antt =====
-- The theorems on one webhook request, at a sample one.
use dispute_router.Common.{◌*◌, ◌≡◌, refl, ◌⊎◌, true, some, [], ◌∷◌, arith}
use dispute_router.Common.Bytes.{codes}
use dispute_router.Common.Int.{pos}
use dispute_router.Database.Transaction.{ok, works, fails, unseen, begin_func}
use dispute_router.Ingest.Handler.{
  opened, event_id, Config, Request, Stores, whole, internal_error, serve, write, claim,
  record_event,
}
use dispute_router.Ingest.Handler.Authentic.{Signed, serve-Signed}
use dispute_router.Ingest.Handler.Claims.{write-released}
use dispute_router.Ingest.Store.{record_dispute}
use dispute_router.Examples.Sample.{second, sample_db}
use dispute_router.Examples.Ingest.{webhook, delivery, takes_all}

abbrev config : Config
config = record {
  hmac = λ key body. key;
  is_jsonb = takes_all;
  decode = λ body. some (opened webhook);
  secrets_for = λ merchant. some (codes "k" ∷ []);
  tolerance = pos (300 * second);
  ttl = 86400 * second;
}

abbrev request : Request
request = record {
  ip_allowed = ok true;
  body = whole (codes "{}");
  signature = "t=100,v1=6b";
  decoded_at = 200;
  merchant_fate = works;
  verified_at = 100 * second;
  merchant_allowed = ok true;
  claim_fate = works;
  claimed_at = 100 * second;
  record_fates = [];
  recorded_at = 100 * second;
  release_fate = works;
}

-- The transaction does not begin.
abbrev down : Request
down = record request { record_fates = fails ∷ [] }

abbrev answer_lost : Request
answer_lost = record request { claim_fate = unseen }

abbrev retry : Request
retry = record request { claimed_at = 200 * second }

abbrev stores : Stores
stores = record { db = sample_db; seen = [] }

serve-Signed_example : ((serve config request stores).1 ≡ stores) ⊎ Signed config request stores
serve-Signed_example = serve-Signed config request stores

down_fails : (write config down delivery (opened webhook) stores).0 ≡ internal_error
unfolding write record_event record_dispute begin_func
down_fails = refl

write-released_example :
    (claim config.ttl works "evt_1"
      (200 * second)
      (write config down delivery (opened webhook) stores).1.seen).0
    ≡ ok true
unfolding event_id
write-released_example =
    write-released config down delivery (opened webhook) stores config.ttl (200 * second) down_fails
      (λ e. ground (arith, e))
