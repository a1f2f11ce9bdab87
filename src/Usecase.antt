-- ===== src/Usecase.antt =====
-- internal/usecase/master_data_sync_usecase.go: synchronising regions from their sources.
pub mod World
pub mod SaveStatus
pub mod Region
pub mod EventTime
pub mod CurrentEvent
pub mod Workers
pub mod EventHub
pub mod StatusQueries
pub mod Job
