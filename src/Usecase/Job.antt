-- ===== src/Usecase/Job.antt =====
-- A synchronisation job of master_data_sync_usecase.go: syncClaimed, finishSyncJob and syncLeased.
pub mod Outcome
pub mod Tasks
pub mod Token
mod Examples
use Prim.Native.String.{String}
use sekai_master_api.Prelude.{
  ℕ, ◌+◌, Bool, true, false, Option, none, some, List, [], ◌∷◌, ◌++◌, length, ◌==◌, if◌then◌else◌,
  reverse,
}
use sekai_master_api.Prelude.Text.{Bytes, codes}
use sekai_master_api.Masterdata.Types.{Source, SyncStatus}
use sekai_master_api.Repository.Lease.{
  Table, Link, Coordinator, SyncLeaseClaim, Result, ok, err, Error, lease_held, coordinator_acquire,
  coordinator_release,
}
use sekai_master_api.Repository.Lease.Exclusion.{Call, run_calls}
use sekai_master_api.Usecase.World.{World, Event, State}
use sekai_master_api.Usecase.SaveStatus.{publish, is_interrupted}
use sekai_master_api.Usecase.Region.{Task}
use sekai_master_api.Usecase.Region.Full.{sync_region}
use sekai_master_api.Usecase.StatusQueries.{
  StatusStore, StatusMap, normalized, find_status, load_status_map,
}

-- What a job returns instead of nil: ErrSyncLeaseHeld, another error of the acquisition,
-- `context.Canceled`, or the joined failures of its regions. `crashed` is no return: a region's
-- goroutine panicked, which ends the process.
pub data JobError : Type 0 where
  held_elsewhere canceled crashed : JobError
  acquire_failed : Error → JobError
  joined : List Bytes → JobError

-- The zero `SyncStatus`, which a map gives for a key that it lacks.
abbrev zero_status : SyncStatus
zero_status = record {
  region = [];
  status = [];
  file_count = 0;
  sync_duration_ms = 0;
  last_synced_at = 0;
  source_commit = [];
  error_message = [];
  source = record { region = []; owner = []; repo = []; ref = []; path = [] };
  updated_at = 0;
  fencing_token = 0;
}

abbrev pub or_zero : Option SyncStatus → SyncStatus
or_zero none = zero_status
or_zero (some status) = status

abbrev pub is_found : Option SyncStatus → Bool
is_found none = false
is_found (some status) = true

-- The task of a source, `previous` and `latest` being the maps of `loadStatusMap`.
pub task_of : StatusMap × StatusMap → Bool → ℕ → Source → Task
task_of (previous, latest) force now source = record {
  source = source;
  previous = or_zero (find_status source.region previous);
  has_previous_status = is_found (find_status source.region previous);
  latest_status = normalized (or_zero (find_status source.region latest)).status;
  force = force;
  now = now;
  resolved_commit = [];
  cache_ready = false;
}

abbrev pub regions_of : List Source → List Bytes
regions_of [] = []
regions_of (source ∷ sources) = source.region ∷ regions_of sources

abbrev pub first_parts : List (Bytes × Bytes) → List Bytes
first_parts [] = []
first_parts ((region, message) ∷ failures) = region ∷ first_parts failures

abbrev pub messages_of : List (Bytes × Bytes) → List Bytes
messages_of [] = []
messages_of ((region, message) ∷ failures) = message ∷ messages_of failures

abbrev job_event : Bytes → List Bytes → List Bytes → Event
job_event status regions failed_regions = record {
  event = codes "master_data_updated";
  status = status;
  region = [];
  phase = [];
  message = [];
  file_count = 0;
  duration_ms = 0;
  status_item = none;
  regions = regions;
  failed_regions = failed_regions;
}

-- A job: its sources, how each region meets the collaborators, the context that the job itself
-- reads, the status store, and when each region begins.
pub record Job (P : Type 0) : Type 0 where
  pub sources : List Source
  pub region_world : Source → World P
  pub job_world : World P
  pub store : Option StatusStore
  pub force : Bool
  pub begins_at : Source → ℕ

module _ {P : Type 0} where
  -- `finishSyncJob` behind its test of the context; the failures are kept with the newest first.
  pub finish_unless : World P → List Bytes → State P × Bool → State P × Option JobError
  finish_unless w regions (s, true) =
      (publish w (job_event (codes "interrupted") regions []) s, some canceled)
  finish_unless w regions (s, false) =
      let failures = reverse s.failures in
      let none_failed = length failures == 0 in
      (
        publish w
            (job_event (if none_failed then codes "success" else codes "failed") regions
              (first_parts failures))
            s,
        if none_failed then none else some (joined (messages_of failures)),
      )

  pub finish_sync_job : World P → List Bytes → State P → State P × Option JobError
  finish_sync_job w regions s = finish_unless w regions (is_interrupted w s)

  -- The state behind a region in front of what follows it, which is nothing after a panic.
  pub in_front : State P → State P × List (State P) → Bool → State P × List (State P)
  in_front s rest true = (s, s ∷ [])
  in_front s (last, states) false = (last, s ∷ states)

  -- The regions in turn, which is what a concurrency of 1 makes of them: the state at the end, and
  -- the state behind each region, the first region's first.
  pub sync_regions :
      (Source → World P) → (Source → Task) → List Source → State P → State P × List (State P)
  sync_regions worlds task [] s = (s, [])
  sync_regions worlds task (source ∷ sources) s =
      let s' = sync_region (worlds source) (task source) s in
      in_front s' (sync_regions worlds task sources s') s'.panicked

  abbrev pub task_for : Job P → Source → Task
  task_for job source = task_of (load_status_map job.store) job.force (job.begins_at source) source

  -- The regions of `syncClaimed`.
  pub claimed_regions : Job P → State P → State P × List (State P)
  claimed_regions job s = sync_regions job.region_world (task_for job) job.sources s

  pub finish_unless_crashed : World P → List Bytes → State P → Bool → State P × Option JobError
  finish_unless_crashed w regions s true = (s, some crashed)
  finish_unless_crashed w regions s false = finish_sync_job w regions s

  -- `syncClaimed`.
  pub sync_claimed : Job P → State P → State P × Option JobError
  sync_claimed job s =
      let s' = (claimed_regions job s).0 in
      finish_unless_crashed job.job_world (regions_of job.sources) s' s'.panicked

  abbrev with_token : ℕ → World P → World P
  with_token token w = record w { lease_token = token }

  -- `currentLeaseToken.Store(claim.Token)`.
  pub under_token : ℕ → Job P → Job P
  under_token token job = record job {
    region_world = λ source. with_token token (job.region_world source);
    job_world = with_token token job.job_world;
  }

  -- The acquisition is answered; `calls` are made on the table while the job runs, its own
  -- heartbeats among them, and the release is the last of its calls. A process that has crashed
  -- releases nothing.
  pub run_leased :
      Coordinator
      → List Call
      → Link
      → ℕ
      → Job P
      → State P
      → Table × Result SyncLeaseClaim
      → Table × State P × Option JobError
  run_leased c calls release_link released_at job s (table, err lease_held) =
      (table, s, some held_elsewhere)
  run_leased c calls release_link released_at job s (table, err e) =
      (table, s, some (acquire_failed e))
  run_leased c calls release_link released_at job s (table, ok claim) =
      let (s', e) = sync_claimed (under_token claim.token job) s in
      let during = run_calls calls table in
      (
        if s'.panicked
            then during
            else (coordinator_release release_link c claim released_at during).0,
        s',
        e,
      )

  -- `syncLeased`; `none` is no coordinator, and the token is then 0.
  pub sync_leased :
      Option Coordinator
      → Link
      → ℕ
      → List Call
      → Link
      → ℕ
      → Job P
      → State P
      → Table
      → Table × State P × Option JobError
  sync_leased none link now calls release_link released_at job s table =
      let (s', e) = sync_claimed (under_token 0 job) s in (table, s', e)
  sync_leased (some c) link now calls release_link released_at job s table =
      run_leased c calls release_link released_at job s (coordinator_acquire link c now table)
