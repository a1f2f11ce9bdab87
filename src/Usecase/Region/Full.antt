-- ===== src/Usecase/Region/Full.antt =====
-- The full synchronisation of a region, and `syncRegion`.
pub mod Kept
pub mod Walk
pub mod Statuses
pub mod Endings
pub mod Runs
pub mod Outcome
use sekai_master_api.Prelude.{
  ℕ, ◌+◌, Bool, true, false, not, ◌&&◌, Option, none, some, List, [], ◌∷◌, ◌++◌, if◌then◌else◌,
  length, ◌==◌, map,
}
use sekai_master_api.Prelude.Text.{Bytes, codes, same, trim_space}
use sekai_master_api.Masterdata.Types.{Source, SyncStatus}
use sekai_master_api.Usecase.World.{
  Answer, answered, failed, World, Event, State, Write, stored_region, pruned, stored_version,
}
use sekai_master_api.Usecase.SaveStatus.{record_failure, save_status, is_interrupted}
use sekai_master_api.Usecase.Region.{
  Task, is_success, task_status, progress, for_region, noted, region_cache_ready,
  persist_pending_status, maybe_skip_region_sync,
}
use sekai_master_api.Usecase.Region.RateLimit.{is_rate_limit_error}

module _ {P : Type 0} (w : World P) where
  unfoldable pub write : Write P → State P → State P
  write what s = record s { writes = what ∷ s.writes }

  logged : State P × Option Bytes → State P
  logged (s, error) = s

  -- `persistRunningStatus`; its error is only logged.
  pub persist_running_status : Task → State P → State P
  persist_running_status t s =
      logged
        (save_status w (task_status t (codes "running") 0 0 t.now t.resolved_commit [] t.now) s)

  -- `persistFailedStatus`.
  pub persist_failed_status : Task → ℕ → Bytes → State P → State P
  persist_failed_status t file_count message s = noted w t (codes "persist failed status") (
      save_status w
        (task_status t (codes "failed") file_count w.duration_ms t.now t.resolved_commit message
          t.now)
        s)

  -- A phase that failed: its event, the recorded failure and the failed status.
  pub fail_phase : Task → Bytes → ℕ → Bytes → State P → State P
  fail_phase t phase file_count message s = persist_failed_status t file_count message (
      record_failure w t.source.region message
        (progress w t (codes "failed") phase message file_count w.duration_ms s))

  -- `fallbackToPreviousAvailableState` of a previous success; `now` is not a zero time.
  fallback_status : Task → SyncStatus
  fallback_status t =
      task_status t (codes "success") t.previous.file_count 0 t.previous.last_synced_at
        (trim_space t.previous.source_commit) [] t.now

  fallen_back : Task → Bytes → State P × Option Bytes → State P
  fallen_back t message (s, none) =
      progress w t (codes "success") (codes "fallback")
        (codes "rate limit reached, fallback to previous available state") 0 w.duration_ms s
  fallen_back t message (s, some e) = fail_phase t (codes "load") 0 message s

  unless_interrupted : Task → Bytes → State P × Bool → State P
  unless_interrupted t message (s, true) = s
  unless_interrupted t message (s, false) =
      if is_rate_limit_error message
        && (t.cache_ready
            && (same t.latest_status (codes "success") && is_success t.previous.status))
      then fallen_back t message (save_status w (fallback_status t) s)
      else fail_phase t (codes "load") 0 message s

  -- `failRegionLoad`.
  pub fail_region_load : Task → Bytes → State P → State P
  fail_region_load t message s = unless_interrupted t message (is_interrupted w s)

  -- `finishRegionSuccess`.
  pub finish_region_success : Task → ℕ → State P → State P
  finish_region_success t file_count s = noted w t (codes "persist success status") (
      save_status w
        (task_status t (codes "success") file_count w.duration_ms w.completed_at t.resolved_commit
          [] w.completed_at)
        (progress w t (codes "success") (codes "done") (codes "region sync completed") file_count
          w.duration_ms s))

  version_written : Task → List (Bytes × P) → P → Option Bytes → State P → State P
  version_written t files version (some e) s =
      fail_phase t (codes "version-cache") (length files) e (write (stored_version version) s)
  version_written t files version none s =
      finish_region_success t (length files) (write (stored_version version) s)

  version_phase : Task → List (Bytes × P) → Option (P → Option Bytes) → Option P → State P → State P
  version_phase t files none version s = finish_region_success t (length files) s
  version_phase t files (some store) none s = finish_region_success t (length files) s
  version_phase t files (some store) (some version) s =
      version_written t files version (store version) s

  -- `storeRegionVersionPayload`, with what follows it.
  pub store_region_version : Task → List (Bytes × P) → State P → State P
  store_region_version t files s =
      version_phase t files w.store_version (w.version_from_files files) s

  file_paths : List (Bytes × P) → List Bytes
  file_paths [] = []
  file_paths ((path, file) ∷ files) = path ∷ file_paths files

  pruned_phase : Task → List (Bytes × P) → Answer (List Bytes) → State P → State P
  pruned_phase t files (answered removed) s =
      store_region_version t files (write (pruned (file_paths files)) s)
  pruned_phase t files (failed e) s =
      fail_phase t (codes "cache") (length files) e (write (pruned (file_paths files)) s)

  prune_phase :
      Task → List (Bytes × P) → Option (List Bytes → Answer (List Bytes)) → State P → State P
  prune_phase t files none s = store_region_version t files s
  prune_phase t files (some prune) s =
      if length files == 0
      then store_region_version t files s
      else pruned_phase t files (prune (file_paths files)) s

  -- `pruneRemovedEntities`, with what follows it.
  pub prune_removed_entities : Task → List (Bytes × P) → State P → State P
  prune_removed_entities t files s = prune_phase t files w.prune_entities s

  stored_phase : Task → List (Bytes × P) → Option Bytes → State P → State P
  stored_phase t files (some e) s = fail_phase t (codes "cache") (length files) e s
  stored_phase t files none s = prune_removed_entities t files s

  -- `storeRegionPayload`, with what follows it; `StoreRegion` of a nil store panics.
  pub store_region_payload : Task → List (Bytes × P) → State P → State P
  store_region_payload t files s =
      if w.has_cache
      then stored_phase t files (w.store_region files) (write (stored_region files) s)
      else record s { panicked = true }

  loaded : Task → Answer (List (Bytes × P)) → State P → State P
  loaded t (failed message) s = fail_region_load t message s
  loaded t (answered files) s =
      store_region_payload t files
        (progress w t (codes "running") (codes "cache") (codes "writing cache") (length files) 0 s)

  -- The ref that is loaded: the resolved commit, if there is one.
  load_ref : Task → Bytes
  load_ref t = if length t.resolved_commit == 0 then t.source.ref else t.resolved_commit

  -- `runRegionFullSync`.
  pub run_region_full_sync : Task → State P → State P
  run_region_full_sync t s = loaded t (w.load_region (load_ref t)) (
      progress w t (codes "running") (codes "load") (codes "loading source files") 0 0
        (persist_running_status t s))

  unless_handled : Task × State P × Bool → State P
  unless_handled (t, s, true) = s
  unless_handled (t, s, false) = run_region_full_sync t s

  cold_first : Task → State P → State P
  cold_first t s = if t.cache_ready then s else persist_pending_status w t s

  ready_checked : Task → Answer Bool → State P → State P
  ready_checked t (failed e) s =
      record_failure w t.source.region (for_region w t (codes "check cache readiness") e) s
  ready_checked t (answered ready) s =
      let t' = record t { cache_ready = ready } in
      unless_handled (maybe_skip_region_sync w t' (cold_first t' s))

  -- `syncRegion`, behind `ensureCacheReady`.
  pub sync_region : Task → State P → State P
  sync_region t s = ready_checked t (region_cache_ready w t.source.region) s
