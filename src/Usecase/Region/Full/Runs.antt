-- ===== src/Usecase/Region/Full/Runs.antt =====
-- Runs of regions of which no file is loaded, with a store that implements no optional interface.
use sekai_master_api.Prelude.{ℕ, true, false, none, [], ◌≡◌, refl}
use sekai_master_api.Prelude.Text.{Bytes, codes, same, to_lower, trim_space}
use sekai_master_api.Masterdata.Types.{Source, SyncStatus}
use sekai_master_api.Usecase.World.{World, State, ContextErr, answered}
use sekai_master_api.Usecase.SaveStatus.{
  publish, save_status, is_interrupted, is_terminal_sync_status, suppressed, call_save,
}
use sekai_master_api.Usecase.Region.{
  Task, region_cache_ready, asked, progress, noted, maybe_skip_region_sync, resolved, task_status,
}
use sekai_master_api.Usecase.Region.Full.{
  write, logged, persist_running_status, finish_region_success, version_phase, store_region_version,
  prune_phase, prune_removed_entities, stored_phase, store_region_payload, loaded, load_ref,
  run_region_full_sync, unless_handled, cold_first, ready_checked, sync_region,
}

abbrev pub source_with : Bytes → Source
source_with region = record {
  region = region;
  owner = codes "owner";
  repo = codes "repo";
  ref = codes "main";
  path = [];
}

abbrev pub jp : Source
jp = source_with (codes "jp")

abbrev pub en : Source
en = source_with (codes "en")

abbrev pub world : World ℕ
world = record {
  ctx_err = λ n. ContextErr.live;
  has_status_store = true;
  save_error = λ n. none;
  lease_token = 0;
  has_cache = true;
  region_data = none;
  region_data_again = none;
  resolve_version = none;
  ensure_derived = none;
  stored_version = none;
  remote_manifest = none;
  json_equal = λ a b. answered true;
  load_region = λ ref. answered [];
  store_region = λ files. none;
  prune_entities = none;
  version_from_files = λ files. none;
  store_version = none;
  skipped_at = 21;
  completed_at = 22;
  duration_ms = 2;
}

abbrev pub begun : Source → SyncStatus → Task
begun source previous = record {
  source = source;
  previous = previous;
  has_previous_status = false;
  latest_status = [];
  force = false;
  now = 20;
  resolved_commit = [];
  cache_ready = false;
}

-- The run of a region records no failure, and does not panic.
abbrev pub IsQuiet : Source → Type 0
IsQuiet source =
    (previous : SyncStatus) (s : State ℕ)
    → ((sync_region world (begun source previous) s).failures ≡ s.failures)
      × ((sync_region world (begun source previous) s).panicked ≡ s.panicked)

pub jp-IsQuiet : IsQuiet jp
unfolding sync_region ready_checked region_cache_ready asked cold_first maybe_skip_region_sync
    resolved unless_handled run_region_full_sync persist_running_status logged loaded load_ref
    store_region_payload stored_phase prune_removed_entities prune_phase store_region_version
    version_phase finish_region_success noted progress publish write save_status suppressed
    is_interrupted is_terminal_sync_status call_save task_status same to_lower trim_space
jp-IsQuiet previous s = (refl, refl)

pub en-IsQuiet : IsQuiet en
unfolding sync_region ready_checked region_cache_ready asked cold_first maybe_skip_region_sync
    resolved unless_handled run_region_full_sync persist_running_status logged loaded load_ref
    store_region_payload stored_phase prune_removed_entities prune_phase store_region_version
    version_phase finish_region_success noted progress publish write save_status suppressed
    is_interrupted is_terminal_sync_status call_save task_status same to_lower trim_space
en-IsQuiet previous s = (refl, refl)

pub jp_ready : region_cache_ready world jp.region ≡ answered true
unfolding region_cache_ready asked to_lower trim_space
jp_ready = refl

pub en_ready : region_cache_ready world en.region ≡ answered true
unfolding region_cache_ready asked to_lower trim_space
en_ready = refl
