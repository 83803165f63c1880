-- ===== src/Ingest/Handler/Authentic.antt =====
-- internal/ingest/handler.go: only a signed request changes anything.
use dispute_router.Common.{
  ◌≡◌, refl, ◌⊎◌, inl, inr, Bool, true, false, Option, none, some, List, Bool-cases, str_eq,
}
use dispute_router.Common.Bytes.{Bytes, codes}
use dispute_router.Database.Schema.{MerchantRow}
use dispute_router.Database.Transaction.{Result, ok, err}
use dispute_router.Ingest.Handler.{
  Incoming, claimed_merchant, decode_delivery, BodyRead, whole, over_the_cap, broken_off, Config,
  Request, Stores, after_verify, after_secrets, proceed, after_lookup, after_decode, after_limit,
  admitted, serve,
}
use dispute_router.Ingest.Store.{merchant_by_external_id}
use dispute_router.Signing.{VerifyError, verify_any}

-- A request whose body decodes to a valid event of a merchant that has one of its secrets sign it.
pub record Signed (cfg : Config) (r : Request) (s : Stores) : Type 0 where
  pub body : Bytes
  pub event : Incoming
  pub merchant : MerchantRow
  pub secrets : List Bytes
  pub arrived : r.body ≡ whole body
  pub is_valid : decode_delivery (cfg.decode body) r.decoded_at ≡ some event
  pub known : merchant_by_external_id (claimed_merchant event) r.merchant_fate s.db ≡ ok merchant
  pub has_secrets : cfg.secrets_for merchant.external_id ≡ some secrets
  pub verified :
      verify_any cfg.hmac secrets body (codes r.signature) r.verified_at cfg.tolerance ≡ none

module _ (cfg : Config) (r : Request) (s : Stores) where
  after_lookup-Signed :
      (body : Bytes) (e : Incoming) (o : Result MerchantRow)
      → r.body ≡ whole body
      → decode_delivery (cfg.decode body) r.decoded_at ≡ some e
      → merchant_by_external_id (claimed_merchant e) r.merchant_fate s.db ≡ o
      → ((after_lookup cfg r body e s o).1 ≡ s) ⊎ Signed cfg r s
  unfolding after_lookup after_secrets after_verify proceed
  after_lookup-Signed body e (err x) a d k = inl refl
  after_lookup-Signed body e (ok m) a d k = by_secrets (cfg.secrets_for m.external_id) refl
    where
      by_verdict :
          (secrets : List Bytes) (v : Option VerifyError)
          → cfg.secrets_for m.external_id ≡ some secrets
          → verify_any cfg.hmac secrets body (codes r.signature) r.verified_at cfg.tolerance ≡ v
          → ((proceed cfg r body e s (after_verify m v)).1 ≡ s) ⊎ Signed cfg r s
      by_verdict secrets (some x) h g = inl refl
      by_verdict secrets none h g = inr (record {
        body = body;
        event = e;
        merchant = m;
        secrets = secrets;
        arrived = a;
        is_valid = d;
        known = k;
        has_secrets = h;
        verified = g;
      })

      by_secrets :
          (o : Option (List Bytes))
          → cfg.secrets_for m.external_id ≡ o
          → ((proceed cfg r body e s (after_secrets cfg r body m o)).1 ≡ s) ⊎ Signed cfg r s
      by_secrets none h = inl refl
      by_secrets (some secrets) h =
          by_verdict secrets
            (verify_any cfg.hmac secrets body (codes r.signature) r.verified_at cfg.tolerance) h
            refl

  after_decode-Signed :
      (body : Bytes) (o : Option Incoming)
      → r.body ≡ whole body
      → decode_delivery (cfg.decode body) r.decoded_at ≡ o
      → ((after_decode cfg r body s o).1 ≡ s) ⊎ Signed cfg r s
  unfolding after_decode
  after_decode-Signed body none a d = inl refl
  after_decode-Signed body (some e) a d =
      after_lookup-Signed body e (merchant_by_external_id (claimed_merchant e) r.merchant_fate s.db)
        a d refl

  after_limit-Signed :
      (b : BodyRead) → r.body ≡ b → ((after_limit cfg r s b).1 ≡ s) ⊎ Signed cfg r s
  unfolding after_limit
  after_limit-Signed over_the_cap a = inl refl
  after_limit-Signed broken_off a = inl refl
  after_limit-Signed (whole body) a = elim (Bool-cases (str_eq r.signature "")) [
    | inl e ↦ inl (rw e refl)
    | inr e ↦
        rw e (after_decode-Signed body (decode_delivery (cfg.decode body) r.decoded_at) a refl)
  ]

  admitted-Signed : (o : Result Bool) → ((admitted cfg r s o).1 ≡ s) ⊎ Signed cfg r s
  unfolding admitted
  admitted-Signed (err x) = inl refl
  admitted-Signed (ok false) = inl refl
  admitted-Signed (ok true) = after_limit-Signed r.body refl

-- A request changes the database or the keys in Redis that mark an event as seen only if its whole body was read and decodes to a
-- valid event, the merchant that the event names is on file, and one of that merchant's secrets verifies
-- the signature over that body. (The buckets of the rate limits are other keys in Redis, and not of these.)
pub serve-Signed :
    (cfg : Config) (r : Request) (s : Stores) → ((serve cfg r s).1 ≡ s) ⊎ Signed cfg r s
unfolding serve
serve-Signed cfg r s = admitted-Signed cfg r s r.ip_allowed
