-- ===== src/Store.antt =====
-- internal/store: the tables of the database, and statements that can fail.
pub mod Tables
pub mod Sql
pub mod Steady
pub mod Reads
pub mod Gives
pub mod Migrate
pub mod Open
pub mod Ensures
pub mod Keeps
pub mod Spends
