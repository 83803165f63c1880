-- ===== src/Lib.antt =====
-- Dispute Router: a verification library of the platform's Go services, which take card
-- disputes in, decide them before their deadlines, and keep the double-entry ledger that the
-- decisions move.
--
-- The parts and how they meet. The ingest service, the worker, the drafting agent and the
-- reviewers write to one Postgres database. The ingest service (internal/ingest) stores each
-- webhook with the dispute or the ruling that it brings. The worker (internal/worker) claims
-- due disputes from an index in Redis, takes a lock, reads the dispute, decides by a pure
-- policy, and applies the decision in one transaction: the state change under a version check,
-- an audit event (internal/events), the money (internal/ledger) and a message
-- (internal/outbox). The agent (internal/agent) holds a chargeback, asks one model for a letter
-- and another for a verdict, and records the run; a reviewer (internal/api) submits the letter
-- or discards it.
--
-- Which file models which part:
-- - Common, with Common/Tests, Lists, Int, Bytes, Text and Digits: shared names, tests on
--   numbers, lists and rows of tables, integers, text as bytes, what the code uses of Go's
--   strings and strconv, and decimal digits read back.
-- - Dispute: internal/dispute/dispute.go. State and Kind are data types; a string that is none
--   of the listed ones is a constructor with its text.
-- - Database: db/migrations as far as the code relies on them (Database/Schema: a record for
--   each table; the CHECK and UNIQUE constraints stand in the statements that meet them), and
--   pgx.BeginFunc (Database/Transaction: a state and error monad over a session;
--   Database/Atomic: its ends).
-- - Ledger: internal/ledger/postings.go; hold, release_hold, settle_loss, refund and write are
--   Hold, ReleaseHold, SettleLoss, Refund and write. Ledger/Balance, Reference, Legs, Missing
--   and Frame are proofs about them.
-- - Events and Outbox: internal/events/events.go (record_event is Record) and
--   internal/outbox/insert.go (insert is Insert).
-- - Outbox/Relay: internal/outbox/relay.go (drain_once is drainOnce, drain_loop the loop of one
--   tick of Run; select_batch, accepted and mark_published are its SELECT, publishing loop and
--   UPDATE). The publisher, the rows that other relays lock and those that other services
--   insert between the rounds are parameters; Outbox/Relay/Delivery and Progress are proofs.
-- - Worker/Rules: internal/worker/rules.go (decide is Decide); Worker/Store: store.go (load,
--   open_deadlines, apply_tx, apply, add_refund_to_transaction); Worker/Deadlines: deadlines.go
--   (schedule, schedule_many, claim); Worker/Locks: locks.go (acquire, release); Worker/Pool:
--   worker.go (handle, drain_once, tick for one tick of pollLoop, reconcile, next_visit);
--   Worker/Consumer: events.go (new_consumer, task_of and process for process, handle,
--   handle_all for the messages of one receive), with the two JSON decodings as parameters.
--   Their children hold the proofs.
-- - Signing: internal/signing/signing.go (parse_header, compute, verify, verify_any, sign); the
--   hash is an argument, and the hex and time functions that the code calls are written out on
--   bytes and integers. Signing/Accept is the proofs.
-- - Dlq: internal/dlq/redrive.go (replay is Replay; replay_message, replay_batch and dry_batch
--   are its inner loops). What SQS answers in each round is a parameter. Dlq/Replay, Counts and
--   Bounds are proofs, with Outcomes for statements about a result.
-- - Ingest/Event: internal/ingest/event.go (validate and validate_ruling are the two Validate
--   methods, on decoded messages). Ingest/Event/Constraints is a proof.
-- - Ingest/Store and Ingest/Ruling: internal/ingest/store.go (record_dispute is record,
--   record_ruling is recordRuling). Which bodies the cast to jsonb takes is a parameter.
--   Ingest/Store/Keys and Once are the proofs that an event takes effect once; the modules
--   Rows, here and below, say how an operation moves the rows of disputes.
-- - Ingest/Handler: ServeHTTP, authenticate, record and decodeDelivery of
--   internal/ingest/handler.go (serve, after_lookup, write, decode_delivery), with the Guard of
--   idempotency.go (claim, release). The JSON decoders, the secrets, the rate limiters and the
--   hash are parameters. Ingest/Handler/Authentic and Claims are the proofs.
-- - Ingest/Limiter: internal/ingest/ratelimit.go (token_bucket is the script, allow is Allow;
--   granted counts what a series of calls lets through). Tokens are counted in units of
--   1/60000. Ingest/Limiter/Window and Expiry are the proofs.
-- - Agent/Runs: internal/agent/store.go (candidates, hold, release, record_run, next_state);
--   Agent/Runs/Again is a proof. Agent/Assist: assist.go (assist, attempt) with check_citations
--   of generate.go, and parsed_draft and parsed_verdict for what Write and Check make of a
--   model's answer. What the models answer and cost, the files on the dispute and the price
--   estimate are parameters. Agent/Assist/Checks, Stages, Approval and Ends are the proofs.
--   Agent/Facts: fence, quarantine and actorKinds of facts.go (before_colon for one actor);
--   Agent/Facts/Fence is the proofs.
-- - Reviews: Decide of internal/api/reviews.go (review), with the decisions of decisions.go.
--   Reviews/Found, Decided and Once are the proofs.
-- - System: all of these together, as a step function on the database with what workers have
--   read and what the agent has claimed; an input names one of them to act on, late or twice as
--   it may be. System/Rows has what a table of rows that move in place and are appended looks
--   like, Writes the rules for transactions, Known what a version stands for, Edges the state
--   machine, Lifecycle and Upkeep the step, History the proofs about runs.
-- - Llm: internal/llm/wire.go (the types, add_usage, unmarshal_block and marshal_block).
--   Llm/Pricing: pricing.go (cost). Llm/Retry: apierror.go (is_retryable, delay_for,
--   parse_retry_after) and the retries of anthropic.go and embed.go (complete, with_retry).
--   Llm/Embed: embed.go (embed is Embed, vectors_of the end of batch); its children are proofs.
-- - Toolloop: internal/toolloop/loop.go (run is Run, round its loop's body, switch the cases of
--   stop_reason, fill_slots and all_slots runTools). Toolloop/Tools: tools.go (run_tool is
--   Registry.Run). Toolloop/Ends has the rules for a run, Spend, Halts and Talk the proofs.
-- - Api/Builder and Api/Filters: internal/api/filters.go (add, where_text, parse_filters,
--   normalize, validate_enums, apply, order_by); a condition is a constructor with the
--   positions of its arguments, and cond_text is its text. Api/Filters/Conditions says what a
--   condition means, Api/Filters/Sql reads its text as SQL, Accepts, Enums and Bounds are the
--   proofs. Api/Evidence: internal/api/evidence.go (safe_name, presign_upload, open_file), with
--   proofs in Names and Keys.
-- - Config: internal/config/config.go (lookup, str, list, integer, dur, and load for Load once
--   .env is read); Config/Dotenv: its readDotEnv. Config/Loads and Config/Dotenv/First are
--   proofs.
-- - Disputetools: internal/disputetools/tools.go (mask_email, clamp_limit, list_filters for the
--   query of ListDisputes); Mask and Limits are the proofs.
-- - Money: internal/money/format.go (digits, format_minor and group). Money/Grouping is the
--   proofs.
-- - Examples: a sample database, runs of the definitions, and each theorem at a concrete input.
--
-- How state and the outside are modelled. A round trip to Postgres or Redis has a fate: it
-- works, it fails, or it takes effect with its answer lost; a transaction gets the list of its
-- fates, and those past the end of the list work. Clocks, random tokens and fates are
-- arguments, so each theorem holds for all of them. Instants are nanoseconds since Go's zero
-- time, and whole seconds count from there too, where Unix time counts from 1970. Amounts are
-- integers; a bigint overflow is not modelled beyond what the CHECK constraints refuse. An
-- identity column draws from one counter of the database, which a rollback restores. Text that
-- is only compared is a String, text that is built is a list of bytes.
--
-- Bounds and fuel. The loop of a poll tick recurs on the passes left, at most 20 as in the
-- code. The loop of the relay's tick recurs on fuel, and any number is enough that is larger
-- than the number of unpublished rows and of those that come in during as many rounds. The loop
-- of Replay recurs on fuel, and one more than its limit is enough. The tool loop recurs on the
-- turns left of its budget, and the retries on the attempts left. Embed recurs on as many
-- rounds as there are texts, which is enough as each round takes one or more. All other loops
-- are structural recursion on lists.
--
-- What is not modelled. Logging, Sentry, metrics, HTTP plumbing, process start and shutdown,
-- the TypeScript dashboard and simulator, Terraform, and the calls of the AWS, Redis and
-- Postgres clients beyond their documented effect. The handlers of one batch run one after the
-- other here; in the code up to Concurrency of them run at once, and each of their steps on the
-- database, the index and the locks is atomic there too. The ticker and reconcile loops are the
-- repetition of the modelled steps until shutdown.
pub mod Common
pub mod Dispute
pub mod Database
pub mod Ledger
pub mod Events
pub mod Outbox
pub mod Worker
pub mod Signing
pub mod Dlq
pub mod Ingest
pub mod Money
pub mod Reviews
pub mod Agent
pub mod Llm
pub mod Toolloop
pub mod Api
pub mod Disputetools
pub mod Config
pub mod System
mod Examples
