-- ===== src/Usecase/StatusQueries/Examples.antt =====
-- One running region and its earlier success.
use sekai_master_api.Prelude.{true, false, none, some, [], ◌∷◌, length, ◌==◌, ◌≡◌, ◌↔◌, refl, All}
use sekai_master_api.Prelude.Text.{Bytes, codes, same, trim_space, to_lower}
use sekai_master_api.Prelude.Members.{In}
use sekai_master_api.Prelude.Sort.{sort}
use sekai_master_api.Masterdata.Types.{Source, SyncStatus}
use sekai_master_api.Masterdata.Index.Table.{is_among}
use sekai_master_api.Usecase.World.{answered}
use sekai_master_api.Usecase.StatusQueries.{
  StatusStore, normalized, is_unfinished, is_resumable, configured_set, collect_regions,
  interrupted_regions, target_sources, recovery_targets, load_status_map, find_status,
  stable_by_region, is_running, any_running, merge_stable, dashboard_status,
}
use sekai_master_api.Usecase.StatusQueries.Interrupted.{recovery_targets-exact}
use sekai_master_api.Usecase.StatusQueries.Dashboard.{
  last_of, IsSettled, load_status_map-last, dashboard_status-IsSettled,
}

abbrev source : Source
source = record {
  region = codes "JP";
  owner = codes "owner";
  repo = codes "repo";
  ref = codes "main";
  path = [];
}

abbrev status_with : Bytes → SyncStatus
status_with status = record {
  region = codes "jp";
  status = status;
  file_count = 0;
  sync_duration_ms = 0;
  last_synced_at = 7;
  source_commit = [];
  error_message = [];
  source = source;
  updated_at = 7;
  fencing_token = 1;
}

abbrev running : SyncStatus
running = status_with (codes "running")

abbrev success : SyncStatus
success = status_with (codes "success")

abbrev store : StatusStore
store = record {
  list = answered (running ∷ []);
  latest_success = some (answered (success ∷ []));
  latest_stable = some (answered (success ∷ []));
}

targets : recovery_targets (source ∷ []) (some store) ≡ answered (source ∷ [])
unfolding recovery_targets interrupted_regions is_resumable configured_set collect_regions
    target_sources is_unfinished is_among same trim_space to_lower sort
targets = refl

recovery_targets-exact_example : In source (source ∷ []) ↔ (
    In source (source ∷ [])
    × (status : SyncStatus) × In status (running ∷ [])
    × (normalized status.region ≡ normalized source.region)
    × (is_unfinished status.status ≡ true)
    × ((length (normalized source.region) == 0) ≡ false))
recovery_targets-exact_example =
    recovery_targets-exact (source ∷ []) (source ∷ []) store (running ∷ []) source refl targets

filled : (length (trim_space (codes "jp")) == 0) ≡ false
unfolding trim_space
filled = refl

load_status_map-last_example :
    (find_status (codes "jp") (load_status_map (some store)).1
      ≡ last_of (codes "jp") (running ∷ []) none)
    × (find_status (codes "jp") (load_status_map (some store)).0
        ≡ last_of (codes "jp") (success ∷ []) (last_of (codes "jp") (running ∷ []) none))
load_status_map-last_example =
    load_status_map-last store (running ∷ []) (success ∷ []) (codes "jp") refl refl filled

stable_rests : is_running success ≡ false
unfolding is_running same trim_space to_lower
stable_rests = refl

shows : dashboard_status false (some store) ≡ answered (success ∷ [])
unfolding dashboard_status any_running is_running merge_stable stable_by_region find_status same
    trim_space to_lower
shows = refl

dashboard_status-IsSettled_example :
    (length (success ∷ []) ≡ length (running ∷ [])) × All (IsSettled (success ∷ [])) (success ∷ [])
dashboard_status-IsSettled_example =
    dashboard_status-IsSettled store (running ∷ []) (success ∷ []) (success ∷ []) refl refl
      (stable_rests, tt) shows
