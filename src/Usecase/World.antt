-- ===== src/Usecase/World.antt =====
-- What one region's synchronisation reads of its collaborators, and what it does to them.
use sekai_master_api.Prelude.{ℕ, Bool, false, Option, List, []}
use sekai_master_api.Prelude.Text.{Bytes}
use sekai_master_api.Masterdata.Types.{SyncStatus}

-- `ctx.Err()`: nil, `context.Canceled` or `context.DeadlineExceeded`.
pub data ContextErr : Type 0 where
  live canceled expired : ContextErr

-- The answer of a collaborator, or its error's message.
pub data Answer (A : Type 0) : Type 0 where
  answered : A → Answer A
  failed : Bytes → Answer A

-- The collaborators of `MasterDataSyncUsecase` as one run of a region meets them. `none` stands for
-- an interface that the collaborator does not implement; `P` are decoded files.
pub record World (P : Type 0) : Type 0 where
  -- `ctx.Err()` at the n-th time that it is read.
  pub ctx_err : ℕ → ContextErr
  pub has_status_store : Bool
  -- The error of the n-th call of `Save`.
  pub save_error : ℕ → Option Bytes
  pub lease_token : ℕ
  -- `usecase.cache` is not nil.
  pub has_cache : Bool
  -- `HasRegionData` when readiness is checked, and when the unchanged-commit shortcut asks again.
  pub region_data : Option (Answer Bool)
  pub region_data_again : Option (Answer Bool)
  pub resolve_version : Option (Answer Bytes)
  pub ensure_derived : Option (Answer (List Bytes))
  -- `LoadRegionVersionPayload` and `LoadVersionManifest`.
  pub stored_version : Option (Answer (Option P))
  pub remote_manifest : Option (Answer (Option P))
  pub json_equal : P → P → Answer Bool
  -- `LoadRegion`, given the ref that it loads.
  pub load_region : Bytes → Answer (List (Bytes × P))
  pub store_region : List (Bytes × P) → Option Bytes
  pub prune_entities : Option (List Bytes → Answer (List Bytes))
  pub version_from_files : List (Bytes × P) → Option P
  pub store_version : Option (P → Option Bytes)
  -- The clock, where a status or an event is stamped with a new reading, and the run's duration.
  pub skipped_at : ℕ
  pub completed_at : ℕ
  pub duration_ms : ℕ

-- `SyncUpdatedEvent`, without the fields that these events leave empty.
pub record Event : Type 0 where
  pub event : Bytes
  pub status : Bytes
  pub region : Bytes
  pub phase : Bytes
  pub message : Bytes
  pub file_count : ℕ
  pub duration_ms : ℕ
  pub status_item : Option SyncStatus
  pub regions : List Bytes
  pub failed_regions : List Bytes

-- What is done to the store of the region's data.
pub data Write (P : Type 0) : Type 0 where
  stored_region : List (Bytes × P) → Write P
  pruned : List Bytes → Write P
  stored_version : P → Write P

-- The effects so far, each list with the newest first. `attempted` are the statuses handed to
-- `Save`, `saved` those of them that it returned nil for. After a panic nothing more is
-- done: it is recovered nowhere, and the process ends.
pub record State (P : Type 0) : Type 0 where
  pub ctx_reads : ℕ
  pub save_calls : ℕ
  pub attempted : List SyncStatus
  pub saved : List SyncStatus
  pub events : List Event
  pub failures : List (Bytes × Bytes)
  pub writes : List (Write P)
  pub panicked : Bool

abbrev pub initial : {P : Type 0} → State P
initial = record {
  ctx_reads = 0;
  save_calls = 0;
  attempted = [];
  saved = [];
  events = [];
  failures = [];
  writes = [];
  panicked = false;
}
