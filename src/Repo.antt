-- ===== src/Repo.antt =====
-- internal/repo: the repository interface and its in-memory implementation.
pub mod Interface
pub mod Memory
pub mod Postgres
