-- ===== src/Masterdata/Types.antt =====
-- internal/domain/masterdata/types.go: the sync status and the progress event.
use sekai_master_api.Prelude.Text.{Bytes}
use sekai_master_api.Prelude.{ℕ}

pub record Source : Type 0 where
  pub region : Bytes
  pub owner : Bytes
  pub repo : Bytes
  pub ref : Bytes
  pub path : Bytes

-- Times are instants in one unit; a zero time is 0.
pub record SyncStatus : Type 0 where
  pub region : Bytes
  pub status : Bytes
  pub file_count : ℕ
  pub sync_duration_ms : ℕ
  pub last_synced_at : ℕ
  pub source_commit : Bytes
  pub error_message : Bytes
  pub source : Source
  pub updated_at : ℕ
  pub fencing_token : ℕ
