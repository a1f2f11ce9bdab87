-- ===== src/Usecase/Job/Examples.antt =====
-- A job of two regions of which no file is loaded.
use sekai_master_api.Prelude.{ℕ, Bool, ap, ◌∙◌, true, false, none, some, [], ◌∷◌, ◌≡◌, refl}
use sekai_master_api.Prelude.Text.{to_lower, trim_space}
use sekai_master_api.Usecase.StatusQueries.{find_status, load_status_map}
use sekai_master_api.Repository.Lease.{
  Table, up, ok, LeaseRecord, Coordinator, SyncLeaseClaim, coordinator_acquire,
}
use sekai_master_api.Repository.Lease.Exclusion.{Taken, coordinator_first}
use sekai_master_api.Usecase.World.{State, initial}
use sekai_master_api.Usecase.SaveStatus.{is_interrupted}
use sekai_master_api.Usecase.Region.Full.Runs.{
  jp, en, world, jp-IsQuiet, en-IsQuiet, jp_ready, en_ready,
}
use sekai_master_api.Usecase.SaveStatus.Live.{IsLive}
use sekai_master_api.Usecase.Job.{
  Job, regions_of, finish_sync_job, finish_unless, finish_unless_crashed, in_front, sync_regions,
  task_of, task_for, sync_claimed, claimed_regions, sync_leased,
}
use sekai_master_api.Usecase.Job.Outcome.{HaveSucceeded, job-HasSucceeded}
use sekai_master_api.Usecase.Job.Token.{AllCarry, leased_job_carries_token}

abbrev job : Job ℕ
job = record {
  sources = jp ∷ (en ∷ []);
  region_world = λ source. world;
  job_world = world;
  store = none;
  force = false;
  begins_at = λ source. 20;
}

live : IsLive world
live = record { has_store = refl; saves = λ n. refl; lives = λ n. refl }

abbrev ended : State ℕ
ended = (claimed_regions job initial).0

-- Behind two regions of which the first does not panic, the state at the end is the second's.
last_of_two : (s u : State ℕ) (b c : Bool) → b ≡ false → (in_front s (in_front u (u, []) c) b).0 ≡ u
unfolding in_front
last_of_two s u true c h = absurd cc
last_of_two s u false true h = refl
last_of_two s u false false h = refl

no_failure : (ended.failures ≡ []) × (ended.panicked ≡ false)
unfolding claimed_regions sync_regions task_of find_status to_lower load_status_map trim_space
no_failure =
    let (clean, calm) = jp-IsQuiet _ initial in
    let (clean', calm') = en-IsQuiet _ _ in
    let there = last_of_two _ _ _ _ calm in
    (
      ap (λ (s : State ℕ). s.failures) there ∙ clean' ∙ clean,
      ap (λ (s : State ℕ). s.panicked) there ∙ calm' ∙ calm,
    )

returned :
    (s : State ℕ) (b : Bool)
    → s.failures ≡ []
    → b ≡ false
    → (finish_unless_crashed world (regions_of job.sources) s b).1 ≡ none
unfolding finish_unless_crashed finish_sync_job finish_unless is_interrupted
returned s true clean calm = absurd cc
returned s false clean calm = rw clean refl

returns_nil : (sync_claimed job initial).1 ≡ none
unfolding sync_claimed
returns_nil = returned ended ended.panicked no_failure.0 no_failure.1

job-HasSucceeded_example :
    HaveSucceeded job.region_world
      (task_for job)
      job.sources
      initial
      (claimed_regions job initial).1
job-HasSucceeded_example =
    job-HasSucceeded job initial ((live, refl, true, jp_ready), ((live, refl, true, en_ready), tt))
      returns_nil

abbrev coordinator : Coordinator
coordinator = record { name = "sync"; holder = "first"; ttl = 10 }

abbrev unheld : Table
unheld name = none

abbrev claim : SyncLeaseClaim
claim = record { holder = "first"; token = 1 }

claimed : (coordinator_acquire up coordinator 5 unheld).1 ≡ ok claim
claimed = coordinator_first coordinator 5 unheld refl

leased_job_carries_token_example :
    (row : LeaseRecord) × ((coordinator_acquire up coordinator 5 unheld).0 "sync" ≡ some row)
    × Taken coordinator 5 (unheld "sync") claim row
    × AllCarry row.fencing_token (sync_leased (some coordinator) up 5 [] up 9 job initial unheld).1
leased_job_carries_token_example =
    leased_job_carries_token coordinator 5 [] up 9 job unheld claim claimed
