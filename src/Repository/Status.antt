-- ===== src/Repository/Status.antt =====
-- internal/repository/master_data_sync_status_repository.go: the fenced status history.
pub mod Steps
pub mod Fencing
use Prim.Native.String.{String}
use text.Mathlib.Text.{◌==◌ as str_eq}
use sekai_master_api.Prelude.{
  ℕ, ◌+◌, ◌<◌, ◌≤◌, Bool, true, false, ◌&&◌, Option, none, some, List, [], ◌∷◌, ltb, if◌then◌else◌,
}
use sekai_master_api.Prelude.Text.{codes}
use sekai_master_api.Masterdata.Types.{Source, SyncStatus}
use sekai_master_api.Repository.Lease.{Table, LeaseRecord, Link, absent, refused, lost, up}

-- The two tables: leases, and master_data_sync_status with the newest row first.
pub record Database : Type 0 where
  pub leases : Table
  pub history : List SyncStatus

pub data SaveResult : Type 0 where
  saved failed fenced_out : SaveResult

-- `writerToken > 0 && writerToken < leaseToken`, of the row that was read `FOR UPDATE`.
is_stale : ℕ → Option LeaseRecord → Bool
is_stale token none = false
is_stale token (some row) = ltb 0 token && ltb token row.fencing_token

-- `assertLeaseFencing`: an empty lease name consults no row.
unfoldable pub is_fenced_out : String → ℕ → Table → Bool
unfolding is_stale
is_fenced_out lease_name token leases =
    if str_eq lease_name "" then false else is_stale token (leases lease_name)

insert_sync_status : SyncStatus → Database → Database
insert_sync_status status db = record db { history = status ∷ db.history }

-- `Save`: the check and the insert are one transaction. `refused` is an error before the commit,
-- `lost` a commit whose answer is lost.
unfoldable pub save : Link → String → SyncStatus → Database → Database × SaveResult
unfolding is_fenced_out insert_sync_status
save absent lease_name status db = (db, saved)
save refused lease_name status db = (db, failed)
save lost lease_name status db =
    if is_fenced_out lease_name status.fencing_token db.leases
    then (db, fenced_out)
    else (insert_sync_status status db, failed)
save up lease_name status db =
    if is_fenced_out lease_name status.fencing_token db.leases
    then (db, fenced_out)
    else (insert_sync_status status db, saved)

pending_status : ℕ → Source → SyncStatus
pending_status now source = record {
  region = source.region;
  status = codes "pending";
  file_count = 0;
  sync_duration_ms = 0;
  last_synced_at = now;
  source_commit = [];
  error_message = [];
  source = source;
  updated_at = now;
  fencing_token = 0;
}

stop_or_go : Database × SaveResult → (Database → Database × SaveResult) → Database × SaveResult
stop_or_go (db, saved) rest = rest db
stop_or_go (db, failed) rest = (db, failed)
stop_or_go (db, fenced_out) rest = (db, fenced_out)

-- `SeedPending`, with what becomes of each save.
unfoldable pub seed_pending : String → ℕ → List (Source × Link) → Database → Database × SaveResult
unfolding pending_status stop_or_go
seed_pending lease_name now [] db = (db, saved)
seed_pending lease_name now ((source, link) ∷ rest) db =
    stop_or_go (save link lease_name (pending_status now source) db)
      (λ db'. seed_pending lease_name now rest db')
