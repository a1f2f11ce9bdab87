-- ===== src/Usecase/StatusQueries.antt =====
-- The reads of the status store in master_data_sync_usecase.go, and the configured sources.
pub mod Interrupted
pub mod Dashboard
mod Examples
use sekai_master_api.Prelude.{
  ℕ, Bool, true, false, not, ◌&&◌, ◌||◌, Option, none, some, List, [], ◌∷◌, ◌++◌, length, ◌==◌,
  if◌then◌else◌,
}
use sekai_master_api.Prelude.Text.{Bytes, codes, same, less, trim_space, to_lower}
use sekai_master_api.Prelude.Sort.{sort}
use sekai_master_api.Masterdata.Types.{Source, SyncStatus}
use sekai_master_api.Masterdata.Index.Table.{is_among}
use sekai_master_api.Usecase.World.{Answer, answered, failed}
use sekai_master_api.Usecase.Region.{is_success}

-- The status store: `List`, and the two lists that a store may implement.
pub record StatusStore : Type 0 where
  pub list : Answer (List SyncStatus)
  pub latest_success : Option (Answer (List SyncStatus))
  pub latest_stable : Option (Answer (List SyncStatus))

abbrev pub normalized : Bytes → Bytes
normalized text = to_lower (trim_space text)

abbrev is_empty : Bytes → Bool
is_empty text = length text == 0

-- `configured`.
unfoldable pub configured_set : List Source → List Bytes
configured_set [] = []
configured_set (source ∷ sources) =
    let rest = configured_set sources in
    if is_empty (normalized source.region) then rest else normalized source.region ∷ rest

unfoldable pub is_unfinished : Bytes → Bool
is_unfinished status =
    same (normalized status) (codes "running") || same (normalized status) (codes "pending")

-- The tests of the loop in `InterruptedRegions`.
unfoldable pub is_resumable : List Bytes → SyncStatus → Bool
unfolding is_unfinished
is_resumable configured status =
    not (is_empty (normalized status.region))
    && (is_among (normalized status.region) configured && is_unfinished status.status)

unfoldable pub collect_regions : (SyncStatus → Bool) → List Bytes → List SyncStatus → List Bytes
collect_regions test seen [] = []
collect_regions test seen (status ∷ statuses) =
    let region = normalized status.region in
    let new = test status && not (is_among region seen) in
    let rest = collect_regions test (if new then region ∷ seen else seen) statuses in
    if new then region ∷ rest else rest

abbrev pub sorted_regions : (SyncStatus → Bool) → Answer (List SyncStatus) → Answer (List Bytes)
sorted_regions test (failed e) = failed e
sorted_regions test (answered statuses) = answered (sort less (collect_regions test [] statuses))

-- `InterruptedRegions`; `none` is no status store.
unfoldable pub interrupted_regions : List Source → Option StatusStore → Answer (List Bytes)
unfolding configured_set is_resumable collect_regions
interrupted_regions sources none = answered []
interrupted_regions sources (some store) =
    sorted_regions (is_resumable (configured_set sources)) store.list

-- The sources that `RecoverInterruptedSync` synchronises again.
unfoldable pub target_sources : List Source → List Bytes → List Source
target_sources [] regions = []
target_sources (source ∷ sources) regions =
    let rest = target_sources sources regions in
    if is_among (normalized source.region) regions then source ∷ rest else rest

abbrev pub targets_of : List Source → Answer (List Bytes) → Answer (List Source)
targets_of sources (failed e) = failed e
targets_of sources (answered regions) = answered (target_sources sources regions)

unfoldable pub recovery_targets : List Source → Option StatusStore → Answer (List Source)
unfolding interrupted_regions target_sources
recovery_targets sources store = targets_of sources (interrupted_regions sources store)

-- `SuccessfulSyncRegions`.
unfoldable pub is_successful : SyncStatus → Bool
is_successful status = is_success status.status && not (is_empty (normalized status.region))

unfoldable pub successful_sync_regions : Option StatusStore → Answer (List Bytes)
unfolding is_successful collect_regions
successful_sync_regions none = answered []
successful_sync_regions (some store) = sorted_regions is_successful store.list

-- The first source of the region, by `strings.EqualFold` on ASCII letters.
unfoldable pub source_of : Bytes → List Source → Option Source
source_of region [] = none
source_of region (source ∷ sources) =
    let rest = source_of region sources in
    if same (normalized source.region) region then some source else rest

-- `resolveRegionSources`; `none` is ErrRegionNotFound.
unfoldable pub resolve_region_sources : List Source → Bytes → Option Source
unfolding source_of
resolve_region_sources sources region =
    if is_empty (normalized region) then none else source_of (normalized region) sources

-- `HasSuccessfulSync` behind its checks: some listed status of the region is a success.
unfoldable pub any_success : Bytes → List SyncStatus → Bool
any_success region [] = false
any_success region (status ∷ statuses) =
    (same (normalized status.region) region && is_success status.status)
    || any_success region statuses

-- The loop of `RegionCacheRevision`, given the time's text: the first listed status of the region
-- gives the revision if it is a success.
module _ (format_time : ℕ → Bytes) where
  unfoldable pub revision_of : Bytes → List SyncStatus → Option Bytes
  revision_of region [] = none
  revision_of region (status ∷ statuses) =
      let rest = revision_of region statuses in
      if not (same (normalized status.region) region)
      then rest
      else if not (is_success status.status)
      then none
      else some (trim_space status.source_commit ++ 64 ∷ format_time status.updated_at)

  abbrev or_nothing : Bytes → Answer (List SyncStatus) → Answer (Option Bytes)
  or_nothing region (failed e) = failed (codes "list master data sync statuses: " ++ e)
  or_nothing region (answered statuses) = answered (revision_of region statuses)

  -- `RegionCacheRevision`.
  unfoldable pub region_cache_revision : Option StatusStore → Bytes → Answer (Option Bytes)
  unfolding revision_of
  region_cache_revision none region = answered none
  region_cache_revision (some store) region =
      if is_empty (normalized region)
      then answered none
      else or_nothing (normalized region) store.list

-- `map[string]SyncStatus`: the entry written last under a key is the first in the list.
abbrev pub StatusMap : Type 0
StatusMap = List (Bytes × SyncStatus)

unfoldable pub find_status : Bytes → StatusMap → Option SyncStatus
find_status region [] = none
find_status region ((key, status) ∷ entries) =
    let rest = find_status region entries in if same key region then some status else rest

-- The loops of `loadStatusMap`.
unfoldable pub put_statuses : List SyncStatus → StatusMap → StatusMap
put_statuses [] entries = entries
put_statuses (status ∷ statuses) entries =
    put_statuses statuses
      (if is_empty (trim_space status.region) then entries else (status.region, status) ∷ entries)

abbrev pub add_successes : Option (Answer (List SyncStatus)) → StatusMap → StatusMap
add_successes none entries = entries
add_successes (some (failed e)) entries = entries
add_successes (some (answered statuses)) entries = put_statuses statuses entries

abbrev pub maps_of :
    Answer (List SyncStatus) → Option (Answer (List SyncStatus)) → StatusMap × StatusMap
maps_of (failed e) successes = ([], [])
maps_of (answered statuses) successes =
    let latest = put_statuses statuses [] in (add_successes successes latest, latest)

-- `loadStatusMap`: the previous and the latest statuses.
unfoldable pub load_status_map : Option StatusStore → StatusMap × StatusMap
unfolding put_statuses
load_status_map none = ([], [])
load_status_map (some store) = maps_of store.list store.latest_success

-- `stableByRegion`.
unfoldable pub stable_by_region : List SyncStatus → StatusMap → StatusMap
stable_by_region [] entries = entries
stable_by_region (status ∷ statuses) entries =
    stable_by_region statuses ((normalized status.region, status) ∷ entries)

unfoldable pub is_running : SyncStatus → Bool
is_running status = same (normalized status.status) (codes "running")

unfoldable pub any_running : List SyncStatus → Bool
unfolding is_running
any_running [] = false
any_running (status ∷ statuses) = is_running status || any_running statuses

abbrev or_status : SyncStatus → Option SyncStatus → SyncStatus
or_status status none = status
or_status status (some stable) = stable

-- The last loop of `DashboardStatus`.
unfoldable pub merge_stable : StatusMap → List SyncStatus → List SyncStatus
unfolding is_running find_status
merge_stable stable [] = []
merge_stable stable (status ∷ statuses) =
    (if not (is_running status)
      then status
      else or_status status (find_status (normalized status.region) stable))
    ∷ merge_stable stable statuses

abbrev merged_with : List SyncStatus → Option (Answer (List SyncStatus)) → List SyncStatus
merged_with statuses none = statuses
merged_with statuses (some (failed e)) = statuses
merged_with statuses (some (answered stable)) =
    if length stable == 0 then statuses else merge_stable (stable_by_region stable []) statuses

abbrev dashboard_of :
    Bool → Answer (List SyncStatus) → Option (Answer (List SyncStatus)) → Answer (List SyncStatus)
dashboard_of sync_running (failed e) stable = failed e
dashboard_of sync_running (answered statuses) stable =
    answered
      (if sync_running || not (any_running statuses) then statuses else merged_with statuses stable)

-- `DashboardStatus`, given `IsSyncRunning`.
unfoldable pub dashboard_status : Bool → Option StatusStore → Answer (List SyncStatus)
unfolding merge_stable stable_by_region any_running
dashboard_status sync_running none = answered []
dashboard_status sync_running (some store) =
    dashboard_of sync_running store.list store.latest_stable
