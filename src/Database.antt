-- ===== src/Database.antt =====
-- Postgres as the code uses it: the tables with their constraints (db/migrations), and a
-- transaction as pgx.BeginFunc runs one.
pub mod Schema
pub mod Transaction
pub mod Atomic
