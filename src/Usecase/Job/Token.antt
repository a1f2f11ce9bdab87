-- ===== src/Usecase/Job/Token.antt =====
-- The token under which a leased job writes statuses.
use sekai_master_api.Prelude.{ℕ, Bool, true, false, some, List, [], ◌∷◌, ◌≡◌, refl, subst, All}
use sekai_master_api.Prelude.Text.{Bytes}
use sekai_master_api.Masterdata.Types.{Source}
use sekai_master_api.Repository.Lease.{
  Table, Link, up, LeaseRecord, Coordinator, SyncLeaseClaim, Result, ok, err, coordinator_acquire,
}
use sekai_master_api.Repository.Lease.Exclusion.{Call, Taken, coordinator_acquire_claims}
use sekai_master_api.Usecase.World.{World, State, initial}
use sekai_master_api.Usecase.SaveStatus.{publish, is_interrupted}
use sekai_master_api.Usecase.Region.{Task}
use sekai_master_api.Usecase.Region.Full.{sync_region}
use sekai_master_api.Usecase.Region.Full.Walk.{sync_region_keeps}
use sekai_master_api.Usecase.Region.Full.Statuses.{attempted-IsKept}
use sekai_master_api.Usecase.Job.Tasks.{in_front_kept}
use sekai_master_api.Usecase.Job.{
  Job, regions_of, finish_unless, finish_unless_crashed, finish_sync_job, sync_regions, task_for,
  claimed_regions, sync_claimed, under_token, run_leased, sync_leased,
}

module _ {P : Type 0} (token : ℕ) where
  -- Each status handed to `Save` carries the token.
  abbrev pub AllCarry : State P → Type 0
  AllCarry s = All (λ status. status.fencing_token ≡ token) s.attempted

  regions-AllCarry :
      (worlds : Source → World P) (task : Source → Task) (sources : List Source) (s : State P)
      → ((source : Source) → (worlds source).lease_token ≡ token)
      → AllCarry s
      → AllCarry (sync_regions worlds task sources s).0
  unfolding sync_regions
  regions-AllCarry worlds task [] s own h = h
  regions-AllCarry worlds task (source ∷ sources) s own h =
      let s' = sync_region (worlds source) (task source) s in
      let k : AllCarry s' =
        sync_region_keeps (worlds source) AllCarry
          (attempted-IsKept (worlds source) (λ status. status.fencing_token ≡ token)
            (λ status u h. own source))
          (task source) s h in
      in_front_kept AllCarry s' (sync_regions worlds task sources s') s'.panicked k
        (regions-AllCarry worlds task sources s' own k)

  finish-AllCarry :
      (w : World P) (regions : List Bytes) (r : State P × Bool)
      → AllCarry r.0
      → AllCarry (finish_unless w regions r).0
  unfolding finish_unless publish
  finish-AllCarry w regions (s, true) h = h
  finish-AllCarry w regions (s, false) h = h

  ended-AllCarry :
      (w : World P) (regions : List Bytes) (s : State P) (crash : Bool)
      → AllCarry s
      → AllCarry (finish_unless_crashed w regions s crash).0
  unfolding finish_unless_crashed finish_sync_job is_interrupted
  ended-AllCarry w regions s true h = h
  ended-AllCarry w regions s false h = finish-AllCarry w regions (is_interrupted w s) h

  claimed-AllCarry : (job : Job P) → AllCarry (sync_claimed (under_token token job) initial).0
  unfolding sync_claimed claimed_regions under_token
  claimed-AllCarry job =
      let job' = under_token token job in
      ended-AllCarry job'.job_world (regions_of job.sources) (claimed_regions job' initial).0
        (claimed_regions job' initial).0.panicked
        (regions-AllCarry job'.region_world (task_for job') job.sources initial (λ source. refl) tt)

module _ {P : Type 0} where
  leased-AllCarry :
      (c : Coordinator) (calls : List Call) (link : Link) (released_at : ℕ) (job : Job P)
      (r : Table × Result SyncLeaseClaim) (claim : SyncLeaseClaim)
      → r.1 ≡ ok claim
      → AllCarry claim.token (run_leased c calls link released_at job initial r).1
  unfolding run_leased
  leased-AllCarry c calls link released_at job (table, err e) claim h = absurd cc
  leased-AllCarry c calls link released_at job (table, ok given) claim h =
      subst
        (λ (k : SyncLeaseClaim).
          AllCarry k.token (sync_claimed (under_token given.token job) initial).0)
        (ok_inj given claim h) (claimed-AllCarry given.token job)
    where
      ok_inj : (a b : SyncLeaseClaim) → ok a ≡ ok b → a ≡ b
      ok_inj a b e = cc

  -- When the acquisition of a leased job is answered with a claim, each status that the job hands to
  -- `Save` carries the fencing token of the row that the acquisition left in the lease table: a
  -- token one above that of the row before it, which had expired, if there was one.
  pub leased_job_carries_token :
      (c : Coordinator) (now : ℕ) (calls : List Call) (release_link : Link) (released_at : ℕ)
      (job : Job P) (table : Table) (claim : SyncLeaseClaim)
      → (coordinator_acquire up c now table).1 ≡ ok claim
      → (row : LeaseRecord) × ((coordinator_acquire up c now table).0 c.name ≡ some row)
        × Taken c now (table c.name) claim row
        × AllCarry row.fencing_token
            (sync_leased (some c) up now calls release_link released_at job initial table).1
  unfolding sync_leased
  leased_job_carries_token c now calls release_link released_at job table claim h =
      let (row, made, taken) = coordinator_acquire_claims c now claim table h in
      (
        row,
        made,
        taken,
        subst
            (λ t.
              AllCarry t
                (sync_leased (some c) up now calls release_link released_at job initial table).1)
            taken.2
            (leased-AllCarry c calls release_link released_at job
              (coordinator_acquire up c now table) claim h),
      )
