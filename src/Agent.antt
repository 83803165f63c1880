-- ===== src/Agent.antt =====
-- internal/agent: the assistant that drafts a representment for a chargeback and leaves the decision to a
-- person.
pub mod Runs
pub mod Assist
pub mod Facts
