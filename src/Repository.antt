-- ===== src/Repository.antt =====
-- internal/repository: the sync lease and the sync status history in PostgreSQL, and git refs.
pub mod Lease
pub mod Status
pub mod Refs
