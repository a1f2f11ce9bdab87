-- ===== src/Storage.antt =====
-- internal/storage: record keys per entity, record blocks, derived data.
pub mod Keyer
pub mod Blocks
mod Examples
