-- ===== src/Masterdata/Index.antt =====
-- internal/domain/masterdata/index.go: the relation indexes of each entity and their keys.
pub mod Table
pub mod Paths
pub mod Keys
