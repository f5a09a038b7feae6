-- ===== src/Repo/Postgres.antt =====
-- internal/repo/postgres*.go: the statements of the Postgres repository, on the tables of
-- internal/repo/migrations/0001_init.sql.
pub mod Tables
pub mod Accounts
pub mod Access
pub mod Packages
pub mod Releases
pub mod Tracks
pub mod Revisions
