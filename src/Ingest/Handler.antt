-- ===== src/Ingest/Handler.antt =====
-- internal/ingest/handler.go and idempotency.go: one webhook request, from the limits to the answer. The
-- JSON decoders, the secrets, the two rate limiters and the hash are parameters.
pub mod Authentic
pub mod Claims
use dispute_router.Common.{
  ℕ, ◌+◌, String, Bool, true, false, not, ◌&&◌, List, [], ◌∷◌, Option, none, some, find_where,
  filter_where, if◌then◌else◌, ltb, str_eq,
}
use dispute_router.Common.Bytes.{Bytes, codes}
use dispute_router.Common.Int.{ℤ}
use dispute_router.Database.Schema.{Db, MerchantRow}
use dispute_router.Database.Transaction.{
  Error, unknown_merchant, driver_error, Result, ok, err, Fate, works, fails, unseen,
}
use dispute_router.Ingest.Event.{
  DisputeWebhook, RulingWebhook, InvalidEvent, validate, validate_ruling,
}
use dispute_router.Ingest.Ruling.{record_ruling}
use dispute_router.Ingest.Store.{
  merchant_by_external_id, RecordResult, Recorded, Delivery, record_dispute,
}
use dispute_router.Signing.{VerifyError, verify_any}

-- `delivery`: one decoded webhook, whichever shape arrived.
pub data Incoming : Type 0 where
  opened : DisputeWebhook → Incoming
  resolved : RulingWebhook → Incoming

unfoldable pub event_id : Incoming → String
event_id (opened e) = e.id
event_id (resolved e) = e.id

unfoldable pub claimed_merchant : Incoming → String
claimed_merchant (opened e) = e.event_data.merchant_id
claimed_merchant (resolved e) = e.event_data.merchant_id

if_valid : Incoming → Option InvalidEvent → Option Incoming
if_valid e none = some e
if_valid e (some x) = none

-- `decodeDelivery` on what the decoders make of the body.
unfoldable pub decode_delivery : Option Incoming → ℕ → Option Incoming
unfolding if_valid
decode_delivery none now = none
decode_delivery (some (opened e)) now = if_valid (opened e) (validate e now)
decode_delivery (some (resolved e)) now = if_valid (resolved e) (validate_ruling e)

-- A key of the Guard in Redis, and the instant from which Redis no longer has it.
pub record SeenKey : Type 0 where
  pub event_id : String
  pub expires_at : ℕ

unfoldable pub is_seen : String → ℕ → SeenKey → Bool
is_seen id now k = str_eq k.event_id id && ltb now k.expires_at

unfoldable pub without_key : String → List SeenKey → List SeenKey
without_key id = filter_where (λ k. not (str_eq k.event_id id))

-- SETNX with its TTL.
set_seen : Option SeenKey → Fate → String → ℕ → List SeenKey → Result Bool × List SeenKey
set_seen k fails id until keys = (err driver_error, keys)
set_seen (some k) works id until keys = (ok false, keys)
set_seen (some k) unseen id until keys = (err driver_error, keys)
set_seen none works id until keys =
    (ok true, record { event_id = id; expires_at = until } ∷ without_key id keys)
set_seen none unseen id until keys =
    (err driver_error, record { event_id = id; expires_at = until } ∷ without_key id keys)

-- `Guard.Claim`.
unfoldable pub claim : ℕ → Fate → String → ℕ → List SeenKey → Result Bool × List SeenKey
unfolding set_seen
claim ttl fate id now keys = set_seen (find_where (is_seen id now) keys) fate id (now + ttl) keys

-- `Guard.Release`; its error is only logged.
unfoldable pub release : Fate → String → List SeenKey → List SeenKey
release works id keys = without_key id keys
release unseen id keys = without_key id keys
release fails id keys = keys

-- What the handler answers, by the status it writes.
pub data Reply : Type 0 where
  -- 202 with the dispute, 200, 422, 401, 429
  accepted : ℕ → Reply
  duplicate unlinkable unauthorized too_many : Reply
  -- 413, 400, 503, 500
  too_large bad_request unavailable internal_error : Reply

-- What reading the body gives.
pub data BodyRead : Type 0 where
  whole : Bytes → BodyRead
  over_the_cap broken_off : BodyRead

-- The handler's configuration and the code it calls: the hash, the database's cast, the decoders and the
-- secrets of a merchant.
pub record Config : Type 0 where
  pub hmac : Bytes → Bytes → Bytes
  pub is_jsonb : Bytes → Bool
  pub decode : Bytes → Option Incoming
  pub secrets_for : String → Option (List Bytes)
  pub tolerance : ℤ
  pub ttl : ℕ

-- One request: what it brings, what the limiters answer, the fates of its round trips and its clocks. An
-- empty signature is a missing one.
pub record Request : Type 0 where
  pub ip_allowed : Result Bool
  pub body : BodyRead
  pub signature : String
  pub decoded_at : ℕ
  pub merchant_fate : Fate
  pub verified_at : ℕ
  pub merchant_allowed : Result Bool
  pub claim_fate : Fate
  pub claimed_at : ℕ
  pub record_fates : List Fate
  pub recorded_at : ℕ
  pub release_fate : Fate

pub record Stores : Type 0 where
  pub db : Db
  pub seen : List SeenKey

abbrev pub Served : Type 0
Served = Reply × Stores

-- The delivery's own `record`.
unfoldable pub record_event : Config → Request → Delivery → Db → Incoming → Result Recorded × Db
record_event cfg r d db (opened e) = record_dispute cfg.is_jsonb d e r.record_fates r.recorded_at db
record_event cfg r d db (resolved e) =
    record_ruling cfg.is_jsonb d e r.record_fates r.recorded_at db

-- `record` after the write. A failure that was committed is the event's unlinkable one.
after_write : Request → String → List SeenKey → Result Recorded × Db → Served
after_write r id seen (err e, db) =
    (internal_error, record { db = db; seen = release r.release_fate id seen })
after_write r id seen (ok (result, some e), db) = (unlinkable, record { db = db; seen = seen })
after_write r id seen (ok (result, none), db) = (
  if result.duplicate then duplicate else accepted result.dispute_id,
  record { db = db; seen = seen },
)

-- `Handler.record`.
unfoldable pub write : Config → Request → Delivery → Incoming → Stores → Served
unfolding after_write
write cfg r d e s = after_write r (event_id e) s.seen (record_event cfg r d s.db e)

after_claim : Config → Request → Delivery → Incoming → Db → Result Bool × List SeenKey → Served
unfolding write
after_claim cfg r d e db (err x, seen) = (unavailable, record { db = db; seen = seen })
after_claim cfg r d e db (ok false, seen) = (duplicate, record { db = db; seen = seen })
after_claim cfg r d e db (ok true, seen) = write cfg r d e (record { db = db; seen = seen })

-- Step 4 and on: the merchant's limit, the claim and the write.
pub trusted : Config → Request → Delivery → Incoming → Stores → Result Bool → Served
unfolding after_claim
trusted cfg r d e s (err x) = (unavailable, s)
trusted cfg r d e s (ok false) = (too_many, s)
trusted cfg r d e s (ok true) =
    after_claim cfg r d e s.db (claim cfg.ttl r.claim_fate (event_id e) r.claimed_at s.seen)

-- `authenticate` after each of its steps.
pub after_verify : MerchantRow → Option VerifyError → MerchantRow × Option Reply
after_verify m none = (m, none)
after_verify m (some e) = (m, some unauthorized)

pub after_secrets :
    Config → Request → Bytes → MerchantRow → Option (List Bytes) → MerchantRow × Option Reply
unfolding after_verify
after_secrets cfg r body m none = (m, some unavailable)
after_secrets cfg r body m (some secrets) =
    after_verify m
      (verify_any cfg.hmac secrets body (codes r.signature) r.verified_at cfg.tolerance)

abbrev lookup_reply : Error → Reply
lookup_reply unknown_merchant = unauthorized
lookup_reply e = internal_error

-- `ServeHTTP` after `authenticate`.
pub proceed : Config → Request → Bytes → Incoming → Stores → MerchantRow × Option Reply → Served
unfolding trusted
proceed cfg r body e s (m, some reply) = (reply, s)
proceed cfg r body e s (m, none) =
    trusted cfg r (record { merchant = m; raw = body; signature = r.signature }) e s
      r.merchant_allowed

-- Steps 3 and 4, once the merchant has been looked up.
pub after_lookup : Config → Request → Bytes → Incoming → Stores → Result MerchantRow → Served
unfolding after_secrets proceed
after_lookup cfg r body e s (err x) = (lookup_reply x, s)
after_lookup cfg r body e s (ok m) =
    proceed cfg r body e s (after_secrets cfg r body m (cfg.secrets_for m.external_id))

pub after_decode : Config → Request → Bytes → Stores → Option Incoming → Served
unfolding after_lookup
after_decode cfg r body s none = (bad_request, s)
after_decode cfg r body s (some e) =
    after_lookup cfg r body e s (merchant_by_external_id (claimed_merchant e) r.merchant_fate s.db)

-- After the first limit: the body, the header and step 2.
pub after_limit : Config → Request → Stores → BodyRead → Served
unfolding after_decode
after_limit cfg r s over_the_cap = (too_large, s)
after_limit cfg r s broken_off = (bad_request, s)
after_limit cfg r s (whole body) =
    if str_eq r.signature ""
    then (unauthorized, s)
    else after_decode cfg r body s (decode_delivery (cfg.decode body) r.decoded_at)

admitted : Config → Request → Stores → Result Bool → Served
unfolding after_limit
admitted cfg r s (err e) = (unavailable, s)
admitted cfg r s (ok false) = (too_many, s)
admitted cfg r s (ok true) = after_limit cfg r s r.body

-- `ServeHTTP`.
unfoldable pub serve : Config → Request → Stores → Served
unfolding admitted
serve cfg r s = admitted cfg r s r.ip_allowed
