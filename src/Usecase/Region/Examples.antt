-- ===== src/Usecase/Region/Examples.antt =====
-- Runs of a cold region: with a cancelled context, and with a live one and a failing load.
use sekai_master_api.Prelude.{ℕ, true, false, none, some, [], ◌≡◌, refl, All}
use sekai_master_api.Prelude.Text.{codes, to_lower, trim_space}
use sekai_master_api.Masterdata.Types.{Source, SyncStatus}
use sekai_master_api.Usecase.World.{ContextErr, answered, failed, World, initial}
use sekai_master_api.Usecase.SaveStatus.Live.{IsLive}
use sekai_master_api.Usecase.Region.{Task, region_cache_ready, asked}
use sekai_master_api.Usecase.Region.Full.Endings.{HasEnded}
use sekai_master_api.Usecase.Region.Full.Outcome.{sync_region-HasEnded}
use sekai_master_api.Usecase.Region.Full.{sync_region}
use sekai_master_api.Usecase.Region.Full.Statuses.{
  IsUnended, interrupted_run-IsUnended, attempts_carry_token,
}

abbrev source : Source
source = record {
  region = codes "jp";
  owner = codes "owner";
  repo = codes "repo";
  ref = codes "main";
  path = [];
}

abbrev previous : SyncStatus
previous = record {
  region = codes "jp";
  status = codes "success";
  file_count = 3;
  sync_duration_ms = 9;
  last_synced_at = 7;
  source_commit = codes "abc";
  error_message = [];
  source = source;
  updated_at = 7;
  fencing_token = 1;
}

abbrev task : Task
task = record {
  source = source;
  previous = previous;
  has_previous_status = true;
  latest_status = codes "success";
  force = false;
  now = 20;
  resolved_commit = [];
  cache_ready = false;
}

abbrev world : World ℕ
world = record {
  ctx_err = λ n. ContextErr.canceled;
  has_status_store = true;
  save_error = λ n. none;
  lease_token = 4;
  has_cache = true;
  region_data = some (answered false);
  region_data_again = some (answered false);
  resolve_version = some (answered (codes "def"));
  ensure_derived = none;
  stored_version = none;
  remote_manifest = none;
  json_equal = λ a b. answered true;
  load_region = λ ref. failed (codes "context canceled");
  store_region = λ files. none;
  prune_entities = none;
  version_from_files = λ files. none;
  store_version = none;
  skipped_at = 21;
  completed_at = 22;
  duration_ms = 2;
}

interrupted_run-IsUnended_example : All IsUnended (sync_region world task initial).attempted
interrupted_run-IsUnended_example = interrupted_run-IsUnended world task (λ n. refl)

attempts_carry_token_example :
    All (λ status. status.fencing_token ≡ 4) (sync_region world task initial).attempted
attempts_carry_token_example = attempts_carry_token world task

-- The same with a context that stays live.
abbrev live_world : World ℕ
live_world = record world { ctx_err = λ n. ContextErr.live }

live : IsLive live_world
live = record { has_store = refl; saves = λ n. refl; lives = λ n. refl }

unready : region_cache_ready live_world (codes "jp") ≡ answered false
unfolding region_cache_ready asked to_lower trim_space
unready = refl

sync_region-HasEnded_example : HasEnded (codes "jp") (sync_region live_world task initial)
sync_region-HasEnded_example =
    sync_region-HasEnded live_world live refl task false initial (λ known. refl) unready
