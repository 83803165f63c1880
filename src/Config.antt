-- ===== src/Config.antt =====
-- internal/config/config.go: the settings of the services, from the environment and .env. A variable's value is a list of
-- bytes; ParseDuration is a parameter, and durations are in nanoseconds.
pub mod Dotenv
pub mod Loads
use dispute_router.Common.{
  ℕ, ◌*◌, Bool, true, false, not, ◌&&◌, ◌||◌, String, List, [], ◌∷◌, ◌++◌, Option, none, some,
  length, ◌==◌, if◌then◌else◌,
}
use dispute_router.Common.Bytes.{Bytes, codes, bytes_eq}
use dispute_router.Common.Int.{ℤ, pos, leb_ℤ}
use dispute_router.Common.Text.{split, trim_space, parse_int}

-- `env`, with the process environment: a variable that is not in the environment, or not in the file, is `none`.
pub record Env : Type 0 where
  pub environ : String → Option Bytes
  pub dotenv : String → Option Bytes
  pub parse_duration : Bytes → Option ℤ

abbrev non_empty : Bytes → Option Bytes
non_empty [] = none
non_empty (c ∷ v) = some (c ∷ v)

-- A map's value, which is "" for a key that it has not.
abbrev value_or_empty : Option Bytes → Bytes
value_or_empty none = []
value_or_empty (some v) = v

unfoldable pub found_in : Option Bytes → Option Bytes → Option Bytes
found_in (some v) file = non_empty v
found_in none file = non_empty (value_or_empty file)

-- `lookup`; `none` is ok = false.
unfoldable pub lookup : Env → String → Option Bytes
unfolding found_in
lookup e key = found_in (e.environ key) (e.dotenv key)

unfoldable pub or_fallback : Bytes → Option Bytes → Bytes
or_fallback fallback none = fallback
or_fallback fallback (some v) = v

-- `str`.
unfoldable pub str : Env → String → Bytes → Bytes
unfolding lookup or_fallback
str e key fallback = or_fallback fallback (lookup e key)

trimmed_list : List Bytes → List Bytes
trimmed_list [] = []
trimmed_list (p ∷ ps) =
    let rest = trimmed_list ps in let t = trim_space p in if length t == 0 then rest else t ∷ rest

listed : List Bytes → Option Bytes → List Bytes
unfolding trimmed_list
listed fallback none = fallback
listed fallback (some v) = trimmed_list (split b',' v)

-- `list`.
unfoldable pub list : Env → String → List Bytes → List Bytes
unfolding listed lookup
list e key fallback = listed fallback (lookup e key)

-- A value that does not parse leaves the fallback, and an error for its key.
abbrev parsed_or : ℤ → Option ℤ → ℤ
parsed_or fallback none = fallback
parsed_or fallback (some n) = n

read_as : (Bytes → Option ℤ) → ℤ → Option Bytes → ℤ
read_as parse fallback none = fallback
read_as parse fallback (some v) = parsed_or fallback (parse v)

-- `integer`.
unfoldable pub integer : Env → String → ℤ → ℤ
unfolding read_as lookup
integer e key fallback = read_as parse_int fallback (lookup e key)

-- `dur`.
unfoldable pub dur : Env → String → ℤ → ℤ
unfolding read_as lookup
dur e key fallback = read_as e.parse_duration fallback (lookup e key)

unfoldable pub fails_to : (Bytes → Option ℤ) → Option Bytes → Bool
fails_to parse none = false
fails_to parse (some v) = elim (parse v) [ none ↦ true | some n ↦ false ]

pub record IngestConfig : Type 0 where
  pub addr : Bytes
  pub idempotency_ttl : ℤ
  pub signature_tolerance : ℤ
  pub rate_limit_per_minute : ℤ
  pub rate_limit_burst : ℤ
  pub ip_rate_limit_per_minute : ℤ
  pub ip_rate_limit_burst : ℤ
  pub max_body_bytes : ℤ
  pub outbox_poll_interval : ℤ
  pub outbox_batch_size : ℤ
  pub webhook_secret_source : Bytes
  pub webhook_secret_id : Bytes
  pub webhook_secret_ttl : ℤ

pub record WorkerConfig : Type 0 where
  pub concurrency : ℤ
  pub poll_interval : ℤ
  pub batch_size : ℤ
  pub lookahead : ℤ
  pub reconcile_interval : ℤ
  pub lock_ttl : ℤ

pub record AgentConfig : Type 0 where
  pub anthropic_api_key : Bytes
  pub anthropic_model : Bytes
  pub voyage_api_key : Bytes
  pub voyage_model : Bytes
  pub precedent_limit : ℤ
  pub max_cost_micros : ℤ
  pub max_attempts : ℤ
  pub batch_size : ℤ
  pub input_per_m_tok : ℤ
  pub output_per_m_tok : ℤ

pub record ApiConfig : Type 0 where
  pub addr : Bytes
  pub cors_origins : List Bytes
  pub request_timeout : ℤ

pub record AwsConfig : Type 0 where
  pub region : Bytes
  pub endpoint : Bytes
  pub access_key_id : Bytes
  pub secret_access_key : Bytes
  pub queue_url : Bytes
  pub dlqurl : Bytes
  pub evidence_bucket : Bytes
  pub max_messages : ℤ
  pub wait_seconds : ℤ

pub record SentryConfig : Type 0 where
  pub dsn : Bytes
  pub environment : Bytes
  pub release : Bytes

-- `Config`.
pub record Config : Type 0 where
  pub database_url : Bytes
  pub redis_url : Bytes
  pub pprof_addr : Bytes
  pub shutdown_timeout : ℤ
  pub ingest : IngestConfig
  pub worker : WorkerConfig
  pub agent : AgentConfig
  pub api : ApiConfig
  pub aws : AwsConfig
  pub sentry : SentryConfig

abbrev second : ℕ
second = 1000000000

unfoldable pub load_ingest : Env → IngestConfig
unfolding str list integer dur
load_ingest e = record {
  addr = str e "INGEST_ADDR" (codes ":8080");
  idempotency_ttl = dur e "INGEST_IDEMPOTENCY_TTL" (pos (86400 * second));
  signature_tolerance = dur e "INGEST_SIGNATURE_TOLERANCE" (pos (300 * second));
  rate_limit_per_minute = integer e "INGEST_RATE_PER_MINUTE" (pos 600);
  rate_limit_burst = integer e "INGEST_RATE_BURST" (pos 120);
  ip_rate_limit_per_minute = integer e "INGEST_IP_RATE_PER_MINUTE" (pos 1200);
  ip_rate_limit_burst = integer e "INGEST_IP_RATE_BURST" (pos 240);
  max_body_bytes = integer e "INGEST_MAX_BODY_BYTES" (pos 65536);
  outbox_poll_interval = dur e "INGEST_OUTBOX_POLL" (pos (second));
  outbox_batch_size = integer e "INGEST_OUTBOX_BATCH" (pos 100);
  webhook_secret_source = str e "WEBHOOK_SECRET_SOURCE" (codes "secretsmanager");
  webhook_secret_id = str e "WEBHOOK_SECRET_ID" (codes "dispute-router/webhook-secrets");
  webhook_secret_ttl = dur e "WEBHOOK_SECRET_TTL" (pos (300 * second));
}

unfoldable pub load_worker : Env → WorkerConfig
unfolding str list integer dur
load_worker e = record {
  concurrency = integer e "WORKER_CONCURRENCY" (pos 8);
  poll_interval = dur e "WORKER_POLL_INTERVAL" (pos (2 * second));
  batch_size = integer e "WORKER_BATCH_SIZE" (pos 100);
  lookahead = dur e "WORKER_LOOKAHEAD" (pos (30 * second));
  reconcile_interval = dur e "WORKER_RECONCILE_INTERVAL" (pos (60 * second));
  lock_ttl = dur e "WORKER_LOCK_TTL" (pos (30 * second));
}

unfoldable pub load_agent : Env → AgentConfig
unfolding str list integer dur
load_agent e = record {
  anthropic_api_key = str e "ANTHROPIC_API_KEY" (codes "");
  anthropic_model = str e "ANTHROPIC_MODEL" (codes "claude-sonnet-5");
  voyage_api_key = str e "VOYAGE_API_KEY" (codes "");
  voyage_model = str e "VOYAGE_MODEL" (codes "voyage-4");
  precedent_limit = integer e "PRECEDENT_LIMIT" (pos 3);
  max_cost_micros = integer e "AGENT_MAX_COST_MICROS" (pos 250000);
  max_attempts = integer e "AGENT_MAX_ATTEMPTS" (pos 2);
  batch_size = integer e "AGENT_BATCH_SIZE" (pos 5);
  input_per_m_tok = integer e "AGENT_INPUT_MICROS_PER_MTOK" (pos 3000000);
  output_per_m_tok = integer e "AGENT_OUTPUT_MICROS_PER_MTOK" (pos 15000000);
}

unfoldable pub load_api : Env → ApiConfig
unfolding str list integer dur
load_api e = record {
  addr = str e "API_ADDR" (codes ":8081");
  cors_origins = list e "API_CORS_ORIGINS" (codes "http://localhost:4200" ∷ []);
  request_timeout = dur e "API_REQUEST_TIMEOUT" (pos (20 * second));
}

unfoldable pub load_aws : Env → AwsConfig
unfolding str list integer dur
load_aws e = record {
  region = str e "AWS_REGION" (codes "us-east-1");
  endpoint = str e "AWS_ENDPOINT_URL" (codes "http://localhost:4566");
  access_key_id = str e "AWS_ACCESS_KEY_ID" (codes "test");
  secret_access_key = str e "AWS_SECRET_ACCESS_KEY" (codes "test");
  queue_url = str e "SQS_QUEUE_URL" (codes "http://localhost:4566/000000000000/disputes-events");
  dlqurl = str e "SQS_DLQ_URL" (codes "http://localhost:4566/000000000000/disputes-events-dlq");
  evidence_bucket = str e "S3_EVIDENCE_BUCKET" (codes "dispute-evidence");
  max_messages = integer e "SQS_MAX_MESSAGES" (pos 10);
  wait_seconds = integer e "SQS_WAIT_SECONDS" (pos 20);
}

unfoldable pub load_sentry : Env → SentryConfig
unfolding str list integer dur
load_sentry e = record {
  dsn = str e "SENTRY_DSN" (codes "");
  environment = str e "SENTRY_ENVIRONMENT" (codes "local");
  release = str e "SENTRY_RELEASE" (codes "");
}

unfoldable pub load_all : Env → Config
unfolding str dur load_ingest load_worker load_agent load_api load_aws load_sentry
load_all e = record {
  database_url = str e "DATABASE_URL" (codes "");
  redis_url = str e "REDIS_URL" (codes "redis://localhost:6379");
  pprof_addr = str e "PPROF_ADDR" (codes "");
  shutdown_timeout = dur e "INGEST_SHUTDOWN_TIMEOUT" (pos (15 * second));
  ingest = load_ingest e;
  worker = load_worker e;
  agent = load_agent e;
  api = load_api e;
  aws = load_aws e;
  sentry = load_sentry e;
}

-- The variables that integer reads, and those that dur reads.
abbrev pub integer_keys : List String
integer_keys =
    "INGEST_RATE_PER_MINUTE" ∷ "INGEST_RATE_BURST" ∷ "INGEST_IP_RATE_PER_MINUTE"
    ∷ "INGEST_IP_RATE_BURST" ∷ "INGEST_MAX_BODY_BYTES" ∷ "INGEST_OUTBOX_BATCH"
    ∷ "WORKER_CONCURRENCY" ∷ "WORKER_BATCH_SIZE" ∷ "PRECEDENT_LIMIT" ∷ "AGENT_MAX_COST_MICROS"
    ∷ "AGENT_MAX_ATTEMPTS" ∷ "AGENT_BATCH_SIZE" ∷ "AGENT_INPUT_MICROS_PER_MTOK"
    ∷ "AGENT_OUTPUT_MICROS_PER_MTOK" ∷ "SQS_MAX_MESSAGES" ∷ "SQS_WAIT_SECONDS" ∷ []

abbrev pub duration_keys : List String
duration_keys =
    "INGEST_SHUTDOWN_TIMEOUT" ∷ "INGEST_IDEMPOTENCY_TTL" ∷ "INGEST_SIGNATURE_TOLERANCE"
    ∷ "INGEST_OUTBOX_POLL" ∷ "WEBHOOK_SECRET_TTL" ∷ "WORKER_POLL_INTERVAL" ∷ "WORKER_LOOKAHEAD"
    ∷ "WORKER_RECONCILE_INTERVAL" ∷ "WORKER_LOCK_TTL" ∷ "API_REQUEST_TIMEOUT" ∷ []

unfoldable pub any_fails : Env → (Bytes → Option ℤ) → List String → Bool
unfolding fails_to lookup
any_fails e parse [] = false
any_fails e parse (key ∷ keys) = fails_to parse (lookup e key) || any_fails e parse keys

-- What Load refuses: values that do not parse, a rate that is not positive, and an unknown source of secrets.
pub data Loaded : Type 0 where
  loaded : Config → Loaded
  unparsed rates_not_positive unknown_source : Loaded

unfoldable pub accepted_by : Config → Bool → Bool → Loaded
accepted_by c bad_rate known_source =
    if bad_rate then rates_not_positive else if known_source then loaded c else unknown_source

unfoldable pub checked : Config → Loaded
unfolding accepted_by
checked c =
    accepted_by c
      (leb_ℤ c.ingest.rate_limit_burst (pos 0) || leb_ℤ c.ingest.rate_limit_per_minute (pos 0))
      (bytes_eq c.ingest.webhook_secret_source (codes "secretsmanager")
        || bytes_eq c.ingest.webhook_secret_source (codes "database"))

-- `Load`, once .env is read.
unfoldable pub load : Env → Loaded
unfolding any_fails checked load_all
load e =
    if any_fails e parse_int integer_keys || any_fails e e.parse_duration duration_keys
    then unparsed
    else checked (load_all e)

-- `RequireDatabase`.
unfoldable pub has_database : Config → Bool
has_database c = not (length c.database_url == 0)
