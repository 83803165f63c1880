-- ===== src/Api.antt =====
-- internal/api: the dashboard's reads, their filters and their limits.
pub mod Builder
pub mod Filters
pub mod Evidence
