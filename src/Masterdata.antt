-- ===== src/Masterdata.antt =====
-- internal/domain/masterdata: JSON values, record keys, relation indexes.
pub mod Json
pub mod Types
pub mod RecordKey
pub mod Index
pub mod Projection
mod Examples
