-- ===== src/Worker.antt =====
-- internal/worker: the policy, the write path into Postgres, the deadline index and the pool.
pub mod Rules
pub mod Store
pub mod Deadlines
pub mod Locks
pub mod Pool
pub mod Consumer
