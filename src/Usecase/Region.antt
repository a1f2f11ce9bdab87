-- ===== src/Usecase/Region.antt =====
-- `regionSyncTask` of master_data_sync_usecase.go: the shortcuts of a region's synchronisation. The
-- full synchronisation is in the child Full.
pub mod RateLimit
mod Examples
pub mod Full
use sekai_master_api.Prelude.{
  ℕ, ◌+◌, Bool, true, false, not, ◌&&◌, ◌||◌, Option, none, some, List, [], ◌∷◌, ◌++◌,
  if◌then◌else◌, length, ltb, ◌==◌,
}
use sekai_master_api.Prelude.Text.{Bytes, codes, same, trim_space, to_lower}
use sekai_master_api.Masterdata.Types.{Source, SyncStatus}
use sekai_master_api.Usecase.World.{Answer, answered, failed, World, Event, State}
use sekai_master_api.Usecase.SaveStatus.{publish, record_failure, save_status}

-- The fields that the phases read; `resolved_commit` and `cache_ready` are set on the way.
pub record Task : Type 0 where
  pub source : Source
  pub previous : SyncStatus
  pub has_previous_status : Bool
  pub latest_status : Bytes
  pub force : Bool
  pub now : ℕ
  pub resolved_commit : Bytes
  pub cache_ready : Bool

-- `strings.EqualFold(strings.TrimSpace(status), "success")`, on ASCII letters.
pub is_success : Bytes → Bool
is_success status = same (to_lower (trim_space status)) (codes "success")

-- A status of this run: what varies of the literals in the source.
pub task_status : Task → Bytes → ℕ → ℕ → ℕ → Bytes → Bytes → ℕ → SyncStatus
task_status t status file_count duration last_synced_at commit message updated_at = record {
  region = t.source.region;
  status = status;
  file_count = file_count;
  sync_duration_ms = duration;
  last_synced_at = last_synced_at;
  source_commit = commit;
  error_message = message;
  source = t.source;
  updated_at = updated_at;
  fencing_token = 0;
}

module _ {P : Type 0} (w : World P) where
  -- `publishRegionProgress`, and the events of its shape with a file count and a duration.
  pub progress : Task → Bytes → Bytes → Bytes → ℕ → ℕ → State P → State P
  progress t status phase message file_count duration s =
      publish w
        (record {
          event = codes "master_data_sync_progress";
          status = status;
          region = t.source.region;
          phase = phase;
          message = message;
          file_count = file_count;
          duration_ms = duration;
          status_item = none;
          regions = [];
          failed_regions = [];
        })
        s

  running : Task → Bytes → State P → State P
  running t message s = progress t (codes "running") (codes "compare") message 0 0 s

  asked : Bytes → Option (Answer Bool) → Answer Bool
  asked region none = answered true
  asked region (some (answered has_data)) = answered has_data
  asked region (some (failed e)) =
      failed (codes "check region data " ++ (region ++ (codes ": " ++ e)))

  -- `regionCacheReady`.
  pub region_cache_ready : Bytes → Answer Bool
  region_cache_ready region =
      if w.has_cache
      then if length (to_lower (trim_space region)) == 0
        then answered false
        else asked (to_lower (trim_space region)) w.region_data
      else answered true

  -- `fmt.Errorf("... for region %s: %w", ...)`.
  pub for_region : Task → Bytes → Bytes → Bytes
  for_region t what e = what ++ (codes " for region " ++ (t.source.region ++ (codes ": " ++ e)))

  -- `saveStatus` whose error is recorded as a failure of the region.
  pub noted : Task → Bytes → State P × Option Bytes → State P
  noted t what (s, none) = s
  noted t what (s, some e) = record_failure w t.source.region (for_region t what e) s

  -- `persistPendingStatusWhenCacheCold`.
  pub persist_pending_status : Task → State P → State P
  persist_pending_status t s =
      let commit = if t.has_previous_status then trim_space t.previous.source_commit else [] in
      noted t (codes "persist pending status")
        (save_status w (task_status t (codes "pending") 0 0 t.now commit [] t.now) s)

  -- `persistUnchangedSkipStatus`.
  pub persist_unchanged_skip_status : Task → State P → State P
  persist_unchanged_skip_status t s = noted t (codes "persist unchanged status") (
      save_status w
        (record {
          region = t.previous.region;
          status = t.previous.status;
          file_count = t.previous.file_count;
          sync_duration_ms = 0;
          last_synced_at = t.previous.last_synced_at;
          source_commit = t.resolved_commit;
          error_message = [];
          source = t.source;
          updated_at = w.skipped_at;
          fencing_token = 0;
        })
        s)

  found_version : Answer (Option P) → Bool
  found_version (failed e) = false
  found_version (answered none) = false
  found_version (answered (some p)) = true

  -- `versionPayloadStored`: true when the store keeps no separate version payload.
  pub version_payload_stored : Bool
  version_payload_stored = elim w.stored_version [
    | none ↦ true
    | some answer ↦ found_version answer
  ]

  -- `EnsureDerivedEntityData`, where the store implements it.
  pub derived_ready : Bool
  derived_ready = elim w.ensure_derived [
    | none ↦ true
    | some (answered built) ↦ true
    | some (failed e) ↦ false
  ]

  keep_stored : Task → State P → State P × Bool
  keep_stored t s =
      if not derived_ready
      then (
        running t (codes "commit unchanged but derived data build failed, fallback to full sync") s,
        false,
      )
      else if not version_payload_stored
      then (
        running t (codes "commit unchanged but version cache unavailable, fallback to full sync") s,
        false,
      )
      else (
        persist_unchanged_skip_status t (
            progress t (codes "success") (codes "compare")
              (codes "commit unchanged, stored region data present and skipped sync") 0 0 s),
        true,
      )

  checked : Task → Option (Answer Bool) → State P → State P × Bool
  checked t none s = (s, false)
  checked t (some (failed e)) s = (
    running t
        (codes "commit unchanged but the stored region could not be checked, fallback to full sync")
        s,
    false,
  )
  checked t (some (answered false)) s = (
    running t
        (codes "commit unchanged but the store has no data for the region, fallback to full sync")
        s,
    false,
  )
  checked t (some (answered true)) s = keep_stored t s

  unchanged_commit : Task → Bool
  unchanged_commit t =
      t.has_previous_status
      && (is_success t.previous.status
          && (not (length t.previous.source_commit == 0)
              && same t.previous.source_commit t.resolved_commit))

  -- `trySkipUnchangedCommit` with `trySkipWhenStoreHasRegion`; a store is asked if there is one.
  pub try_skip_unchanged_commit : Task → State P → State P × Bool
  try_skip_unchanged_commit t s =
      if unchanged_commit t
      then checked t (if w.has_cache then w.region_data_again else none) s
      else (s, false)

  equal_manifests : Option (Answer (Option P)) → Option (Answer (Option P)) → Bool
  equal_manifests (some (answered (some stored))) (some (answered (some remote))) =
      elim (w.json_equal stored remote) [ answered b ↦ b | failed e ↦ false ]
  equal_manifests _ _ = false

  -- `versionManifestsMatchForSkip`.
  pub version_manifests_match : Bool
  version_manifests_match = equal_manifests w.stored_version w.remote_manifest

  manifest_kept : Task → State P × Option Bytes → State P × Bool
  manifest_kept t (s, some e) = (
    record_failure w t.source.region (for_region t (codes "persist manifest skip status") e) s,
    true,
  )
  manifest_kept t (s, none) = (
    progress t (codes "success") (codes "compare")
        (codes "versions manifest unchanged, kept stored data and skipped sync")
        t.previous.file_count 0 s,
    true,
  )

  kept_status : Task → SyncStatus
  kept_status t = record {
    region = t.previous.region;
    status = codes "success";
    file_count = t.previous.file_count;
    sync_duration_ms = 0;
    last_synced_at = t.previous.last_synced_at;
    source_commit = t.resolved_commit;
    error_message = [];
    source = t.source;
    updated_at = w.skipped_at;
    fencing_token = 0;
  }

  -- `trySkipRegionWithUnchangedManifest`.
  pub try_skip_unchanged_manifest : Task → State P → State P × Bool
  try_skip_unchanged_manifest t s =
      if not (t.cache_ready && version_manifests_match)
      then (s, false)
      else if not derived_ready
      then (s, false)
      else manifest_kept t (save_status w (kept_status t) s)

  -- `trySkipChangedCommit`.
  pub try_skip_changed_commit : Task → State P → State P × Bool
  try_skip_changed_commit t s =
      let previous_commit = trim_space t.previous.source_commit in
      if t.has_previous_status
        && (is_success t.previous.status
            && (not (length previous_commit == 0)
                && (not (length t.resolved_commit == 0)
                    && not (same previous_commit t.resolved_commit))))
      then try_skip_unchanged_manifest t s
      else (s, false)

  or_changed : Task → State P × Bool → State P × Bool
  or_changed t (s, true) = (s, true)
  or_changed t (s, false) = try_skip_changed_commit t s

  resolved : Task → Option (Answer Bytes) → State P → Task × State P × Bool
  resolved t none s = (t, s, false)
  resolved t (some (failed e)) s =
      let message =
        if t.force
        then codes "resolve commit failed, continue with force sync"
        else codes "compare commit failed, fallback to full sync" in
      (t, running t message s, false)
  resolved t (some (answered commit)) s =
      let t' = record t { resolved_commit = trim_space commit } in
      if t.force
      then (t', s, false)
      else let r = or_changed t' (try_skip_unchanged_commit t' s) in (t', r.0, r.1)

  -- `maybeSkipRegionSync`: the task with its resolved commit, and whether the region is handled.
  pub maybe_skip_region_sync : Task → State P → Task × State P × Bool
  maybe_skip_region_sync t s = resolved t w.resolve_version s
