-- ===== src/Config/Loads.antt =====
-- internal/config/config.go: what Load accepts.
use dispute_router.Common.{
  ℕ, ◌≡◌, ◌≢◌, refl, sym, subst, Bool, true, false, ◌||◌, inl, inr, String, List, [], ◌∷◌, Option,
  none, some, arith, All, Bool-cases,
}
use dispute_router.Common.Bytes.{Bytes, codes, bytes_eq}
use dispute_router.Common.Int.{ℤ, pos, ◌≤ℤ◌, leb_ℤ}
use dispute_router.Common.Text.{parse_int}
use dispute_router.Config.{
  Env, found_in, lookup, or_fallback, str, fails_to, any_fails, Config, load_all, load_aws, loaded,
  accepted_by, checked, integer_keys, duration_keys, load,
}

-- No variable of the list is set to what does not parse.
abbrev pub Parse : Env → (Bytes → Option ℤ) → List String → Type 0
Parse e parse keys = All (λ key. fails_to parse (lookup e key) ≡ false) keys

any_fails-Parse :
    (e : Env) (parse : Bytes → Option ℤ) (keys : List String)
    → any_fails e parse keys ≡ false
    → Parse e parse keys
unfolding any_fails
any_fails-Parse e parse [] h = tt
any_fails-Parse e parse (key ∷ keys) h =
    let (a, b) = neither (fails_to parse (lookup e key)) (any_fails e parse keys) h in
    (a, any_fails-Parse e parse keys b)
  where
    neither : (p q : Bool) → (p || q) ≡ false → (p ≡ false) × (q ≡ false)
    neither p q k = ground arith

pub record Sound (e : Env) (c : Config) : Type 0 where
  pub whole : c ≡ load_all e
  pub some_burst : pos 1 ≤ℤ c.ingest.rate_limit_burst
  pub some_rate : pos 1 ≤ℤ c.ingest.rate_limit_per_minute
  pub known_source :
      (bytes_eq c.ingest.webhook_secret_source (codes "secretsmanager")
        || bytes_eq c.ingest.webhook_secret_source (codes "database"))
      ≡ true
  pub integers : Parse e parse_int integer_keys
  pub durations : Parse e e.parse_duration duration_keys

accepted_by-parts :
    (d c : Config) (bad known : Bool)
    → accepted_by d bad known ≡ loaded c
    → (c ≡ d) × (bad ≡ false) × (known ≡ true)
unfolding accepted_by
accepted_by-parts d c true known h = ground arith
accepted_by-parts d c false false h = ground arith
accepted_by-parts d c false true h = (cc, refl, refl)

-- Load accepts nothing but settings with positive rates and a known source of secrets, from an environment in which
-- every variable of a number or a duration that is set parses; what it then gives is what was read.
pub load-Sound : (e : Env) (c : Config) → load e ≡ loaded c → Sound e c
unfolding load checked
load-Sound e c h =
    elim (Bool-cases
      (any_fails e parse_int integer_keys || any_fails e e.parse_duration duration_keys)) [
        | inl f ↦ absurd (refused f h)
        | inr f ↦ sound f (accepted_by-parts (load_all e) c _ _ (rw (f, load) at h))
      ]
  where
    refused :
        (any_fails e parse_int integer_keys || any_fails e e.parse_duration duration_keys) ≡ true
        → load e ≡ loaded c
        → ⊥
    refused f k = ground arith

    neither : (p q : Bool) → (p || q) ≡ false → (p ≡ false) × (q ≡ false)
    neither p q k = ground arith

    sound :
        (any_fails e parse_int integer_keys || any_fails e e.parse_duration duration_keys) ≡ false
        → (c ≡ load_all e)
          × ((leb_ℤ (load_all e).ingest.rate_limit_burst (pos 0)
                || leb_ℤ (load_all e).ingest.rate_limit_per_minute (pos 0))
              ≡ false)
          × ((bytes_eq (load_all e).ingest.webhook_secret_source (codes "secretsmanager")
                || bytes_eq (load_all e).ingest.webhook_secret_source (codes "database"))
              ≡ true)
        → Sound e c
    sound f (same, rates, known) =
        let (a, b) =
          neither (any_fails e parse_int integer_keys) (any_fails e e.parse_duration duration_keys)
            f in
        let (p, q) =
          neither (leb_ℤ (load_all e).ingest.rate_limit_burst (pos 0))
            (leb_ℤ (load_all e).ingest.rate_limit_per_minute (pos 0)) rates in
        subst (Sound e) (sym same) record {
          whole = refl;
          some_burst = ground arith;
          some_rate = ground arith;
          known_source = known;
          integers = any_fails-Parse e parse_int integer_keys a;
          durations = any_fails-Parse e e.parse_duration duration_keys b;
        }

str-non_empty : (e : Env) (key : String) (c : ℕ) (rest : Bytes) → str e key (c ∷ rest) ≢ []
unfolding str or_fallback lookup found_in
str-non_empty e key c rest = by_place (e.environ key) (e.dotenv key)
  where
    by_place : (a b : Option Bytes) → or_fallback (c ∷ rest) (found_in a b) ≢ []
    by_place (some []) b h = ground arith
    by_place (some (x ∷ v)) b h = ground arith
    by_place none none h = ground arith
    by_place none (some []) h = ground arith
    by_place none (some (x ∷ v)) h = ground arith

-- Whatever the environment and the file say, clearing a variable included: the settings that Load gives name an AWS endpoint
-- and an access key, and the endpoint is LocalStack's when neither sets one.
pub load-endpoint :
    (e : Env) (c : Config)
    → load e ≡ loaded c
    → (c.aws.endpoint ≢ [])
      × (c.aws.access_key_id ≢ [])
      × (lookup e "AWS_ENDPOINT_URL" ≡ none → c.aws.endpoint ≡ codes "http://localhost:4566")
unfolding load_all load_aws
load-endpoint e c h =
    subst
      (λ d.
        (d.aws.endpoint ≢ [])
        × (d.aws.access_key_id ≢ [])
        × (lookup e "AWS_ENDPOINT_URL" ≡ none → d.aws.endpoint ≡ codes "http://localhost:4566"))
      (sym (load-Sound e c h).whole)
      (str-non_empty e "AWS_ENDPOINT_URL" _ _, str-non_empty e "AWS_ACCESS_KEY_ID" _ _, local)
  where
    local :
        lookup e "AWS_ENDPOINT_URL" ≡ none
        → str e "AWS_ENDPOINT_URL" (codes "http://localhost:4566") ≡ codes "http://localhost:4566"
    local k = unfold str or_fallback in rw k refl
