-- ===== src/Examples.antt =====
-- A small database, tests of the definitions at it, and each theorem at a concrete input.
mod Sample
mod Tests
mod Policy
mod Ledger
mod Store
mod Pool
mod Relay
mod Signing
mod Dlq
mod Ingest
mod Money
mod Agent
mod Reviews
mod System
mod Requests
mod Limiter
mod Agents
mod Prompt
mod Api
