-- ===== src/Ingest.antt =====
-- internal/ingest: the service that takes the processor's webhooks in.
pub mod Event
pub mod Store
pub mod Limiter
pub mod Ruling
pub mod Handler
