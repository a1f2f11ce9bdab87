-- ===== src/Usecase/Job/Outcome.antt =====
-- What a job that returns nil has done.
use sekai_master_api.Prelude.{
  Bool-cases, inl, inr, ℕ, ◌≤◌, Bool, true, false, none, List, [], ◌∷◌, reverse, length, ◌==◌, ◌≡◌,
  refl, sym, ◌∙◌, ap, subst, All, arith, le_refl, le_trans, length-reverse,
}
use sekai_master_api.Prelude.Text.{Bytes}
use sekai_master_api.Masterdata.Types.{Source, SyncStatus}
use sekai_master_api.Usecase.World.{World, State, answered}
use sekai_master_api.Usecase.SaveStatus.{publish, record_failure, is_interrupted}
use sekai_master_api.Usecase.SaveStatus.Live.{IsLive, save_status-IsSaved}
use sekai_master_api.Usecase.Region.{Task, is_success, region_cache_ready}
use sekai_master_api.Usecase.Region.Full.{sync_region, write}
use sekai_master_api.Usecase.Region.Full.Kept.{IsKept}
use sekai_master_api.Usecase.Region.Full.Walk.{sync_region_keeps}
use sekai_master_api.Usecase.Region.Full.Endings.{HasEnded}
use sekai_master_api.Usecase.Region.Full.Outcome.{IsOwn, sync_region-HasEnded}
use sekai_master_api.Usecase.Job.{
  Job, regions_of, finish_unless, finish_unless_crashed, finish_sync_job, in_front, sync_regions,
  task_for, claimed_regions, sync_claimed,
}
use sekai_master_api.Usecase.Job.Tasks.{in_front_kept, task-source, task-IsOwn}

-- The status saved last is a success of the region.
abbrev pub HasSucceeded : {P : Type 0} → Bytes → State P → Type 0
HasSucceeded region s =
    (status : SyncStatus) × (rest : List SyncStatus) × (s.saved ≡ status ∷ rest)
    × (status.region ≡ region)
    × (is_success status.status ≡ true)

-- Each source's region meets a live context, a status store that saves and a data store, and the
-- readiness of its data is answered.
abbrev pub IsServed : {P : Type 0} → (Source → World P) → Source → Type 0
IsServed worlds source =
    IsLive (worlds source)
    × ((worlds source).has_cache ≡ true)
    × (ready : Bool) × (region_cache_ready (worlds source) source.region ≡ answered ready)

-- One state for each source, in the order of the sources: what `syncRegion` of the source makes of
-- the state before it, in which the status saved last is a success of the source's region.
abbrev pub HaveSucceeded :
    {P : Type 0}
    → (Source → World P)
    → (Source → Task)
    → List Source
    → State P
    → List (State P)
    → Type 0
HaveSucceeded worlds task [] s [] = Unit
HaveSucceeded worlds task [] s (u ∷ us) = ⊥
HaveSucceeded worlds task (source ∷ sources) s [] = ⊥
HaveSucceeded worlds task (source ∷ sources) s (u ∷ us) =
    (u ≡ sync_region (worlds source) (task source) s)
    × HasSucceeded source.region u
    × HaveSucceeded worlds task sources u us

module _ {P : Type 0} where
  failures-IsKept : (w : World P) (n : ℕ) → IsLive w → IsKept w (λ s. n ≤ length s.failures)
  unfolding publish record_failure write is_interrupted
  failures-IsKept w n live = record {
    on_publish = λ e s q h. h;
    on_failure = λ region message s h. omega (arith, h);
    on_write = λ what s h. h;
    on_read = λ s h. h;
    on_panic = λ s h. h;
    on_save = λ status s h.
        let (a, b, c) = save_status-IsSaved w live status s in subst (λ l. n ≤ length l) (sym b) h;
  }

  region_grows :
      (w : World P) (t : Task) (s : State P)
      → IsLive w
      → length s.failures ≤ length (sync_region w t s).failures
  region_grows w t s live =
      sync_region_keeps w (λ u. length s.failures ≤ length u.failures)
        (failures-IsKept w (length s.failures) live) t s (le_refl (length s.failures))

  regions_grow :
      (worlds : Source → World P) (task : Source → Task) (sources : List Source) (s : State P)
      → All (IsServed worlds) sources
      → length s.failures ≤ length (sync_regions worlds task sources s).0.failures
  unfolding sync_regions
  regions_grow worlds task [] s served = le_refl (length s.failures)
  regions_grow worlds task (source ∷ sources) s ((live, cached, ready, e), served) =
      let s' = sync_region (worlds source) (task source) s in
      let here : length s.failures ≤ length s'.failures =
        region_grows (worlds source) (task source) s live in
      in_front_kept (λ u. length s.failures ≤ length u.failures) s'
        (sync_regions worlds task sources s') s'.panicked here
        (le_trans here (regions_grow worlds task sources s' served))

  -- With no failure on record, the end of a region is a success.
  ended-HasSucceeded :
      (region : Bytes) (s : State P)
      → HasEnded region s
      → length s.failures ≡ 0
      → HasSucceeded region s
  ended-HasSucceeded region s (status, rest, saved, (own, end)) clean = (
    status,
    rest,
    saved,
    own,
    elim end [
      | inl good ↦ good
      | inr (failed, some_failure) ↦ absurd (omega (arith, some_failure, clean))
    ],
  )

  -- The region goes well, and so does what follows it, when at the end there is no panic and no
  -- failure on record.
  in_front-HaveSucceeded :
      (worlds : Source → World P) (task : Source → Task) (source : Source) (sources : List Source)
      (s s' : State P) (rest : State P × List (State P)) (b : Bool)
      → s' ≡ sync_region (worlds source) (task source) s
      → s'.panicked ≡ b
      → (in_front s' rest b).0.panicked ≡ false
      → length (in_front s' rest b).0.failures ≡ 0
      → (rest.0.panicked ≡ false
          → length rest.0.failures ≡ 0
          → HasSucceeded source.region s' × HaveSucceeded worlds task sources s' rest.1)
      → HaveSucceeded worlds task (source ∷ sources) s (in_front s' rest b).1
  unfolding in_front
  in_front-HaveSucceeded worlds task source sources s s' rest true made crashed calm clean next =
      absurd cc
  in_front-HaveSucceeded worlds task source sources s s' (last, states) false made crashed calm
        clean next =
      let (here, later) = next calm clean in (made, here, later)

  regions-HaveSucceeded :
      (worlds : Source → World P) (task : Source → Task) (sources : List Source) (s : State P)
      → ((source : Source) → ((task source).source ≡ source) × IsOwn (task source))
      → All (IsServed worlds) sources
      → (sync_regions worlds task sources s).0.panicked ≡ false
      → length (sync_regions worlds task sources s).0.failures ≡ 0
      → HaveSucceeded worlds task sources s (sync_regions worlds task sources s).1
  unfolding sync_regions
  regions-HaveSucceeded worlds task [] s own served calm clean = tt
  regions-HaveSucceeded worlds task (source ∷ sources) s own ((live, cached, ready, e), served) calm
        clean =
      let s' = sync_region (worlds source) (task source) s in
      let same_source : (task source).source ≡ source = (own source).0 in
      let ended : HasEnded source.region s' =
        subst (λ (o : Source). HasEnded o.region s') same_source
          (sync_region-HasEnded (worlds source) live cached (task source) ready s (own source).1
            (ap (λ (o : Source). region_cache_ready (worlds source) o.region) same_source ∙ e)) in
      let grows = regions_grow worlds task sources s' served in
      in_front-HaveSucceeded worlds task source sources s s' (sync_regions worlds task sources s')
        s'.panicked refl refl calm clean
        (λ calm' clean'. (
          ended-HasSucceeded source.region s' ended (omega (arith, grows, clean')),
          regions-HaveSucceeded worlds task sources s' own served calm' clean',
        ))

  finish-none :
      (w : World P) (regions : List Bytes) (r : State P × Bool)
      → (finish_unless w regions r).1 ≡ none
      → length r.0.failures ≡ 0
  unfolding finish_unless
  finish-none w regions (s, true) h = absurd cc
  finish-none w regions (s, false) h = elim (Bool-cases (length (reverse s.failures) == 0)) [
    | inl e ↦ ground (arith, e, length-reverse s.failures)
    | inr e ↦ absurd (cc (rw e at h))
  ]

  interrupted-failures : (w : World P) (s : State P) → (is_interrupted w s).0.failures ≡ s.failures
  unfolding is_interrupted
  interrupted-failures w s = refl

  -- A job that returns nil has not crashed, and has no failure on record.
  returned-none :
      (w : World P) (regions : List Bytes) (s : State P) (crash : Bool)
      → (finish_unless_crashed w regions s crash).1 ≡ none
      → (crash ≡ false) × (length s.failures ≡ 0)
  unfolding finish_unless_crashed finish_sync_job
  returned-none w regions s true h = absurd cc
  returned-none w regions s false h = (
    refl,
    sym (ap length (interrupted-failures w s)) ∙ finish-none w regions (is_interrupted w s) h,
  )

  -- When each region of a job meets a live context, a status store that saves and a data store, and
  -- the readiness of its data is answered, and when the job returns nil, then the job has run
  -- `syncRegion` of every source, each from the state that the source before it left, and behind
  -- each run the status saved last was a success of the source's region. (The regions run one after
  -- another.)
  pub job-HasSucceeded :
      (job : Job P) (s : State P)
      → All (IsServed job.region_world) job.sources
      → (sync_claimed job s).1 ≡ none
      → HaveSucceeded job.region_world (task_for job) job.sources s (claimed_regions job s).1
  unfolding sync_claimed claimed_regions
  job-HasSucceeded job s served h =
      let final = (claimed_regions job s).0 in
      let (calm, clean) =
        returned-none job.job_world (regions_of job.sources) final final.panicked h in
      regions-HaveSucceeded job.region_world (task_for job) job.sources s
        (λ source. (task-source job source, task-IsOwn job source)) served calm clean
