-- ===== src/Usecase/Workers/Examples.antt =====
-- A `StartSync` at work, and a `sync` that comes behind the shutdown.
use sekai_master_api.Prelude.{◌≤◌, true, [], ◌∷◌, ◌≡◌, refl}
use sekai_master_api.Usecase.Workers.{
  Process, syncing, starting, wait_returns, after_thread, calls_sync, calls_start_sync, closes,
  acts, Reach, here, next, started, close_admission, advance_at, advance, swap_running,
  try_admit_sync_worker,
}
use sekai_master_api.Usecase.Workers.Count.{sum, works}
use sekai_master_api.Usecase.Workers.Exclusion.{one_job_at_work, none_at_work_after_wait}

abbrev called : Process
called = record started { threads = starting ∷ [] }

abbrev at_work : Process
at_work = after_thread 0 (after_thread 0 called)

at_work_reached : Reach started at_work
at_work_reached =
    next (next (next here (calls_start_sync started)) (acts called 0))
      (acts (after_thread 0 called) 0)

one_works : sum works at_work.threads ≡ 1
unfolding advance_at advance swap_running try_admit_sync_worker
one_works = refl

one_job_at_work_example : sum works at_work.threads ≤ 1
one_job_at_work_example = one_job_at_work at_work_reached

-- Closed, and both of its actions behind it.
abbrev closing : Process
closing = record at_work { gate = close_admission at_work.gate }

abbrev done : Process
done = after_thread 0 (after_thread 0 closing)

done_reached : Reach started done
done_reached =
    next (next (next at_work_reached (closes at_work)) (acts closing 0))
      (acts (after_thread 0 closing) 0)

done_returns : wait_returns done.gate ≡ true
unfolding wait_returns advance_at advance swap_running try_admit_sync_worker close_admission
done_returns = refl

none_at_work_after_wait_example :
    sum works (after_thread 0 (record done { threads = syncing ∷ done.threads })).threads ≡ 0
none_at_work_after_wait_example =
    none_at_work_after_wait done_reached done_returns (
      next (next here (calls_sync done))
        (acts (record done { threads = syncing ∷ done.threads }) 0))
