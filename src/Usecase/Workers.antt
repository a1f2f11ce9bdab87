-- ===== src/Usecase/Workers.antt =====
-- Admission of synchronisation workers in master_data_sync_usecase.go: tryAdmitSyncWorker,
-- CloseAdmission, Wait, and what StartSync and sync do with them, as threads' atomic actions.
pub mod Count
pub mod Exclusion
mod Examples
use sekai_master_api.Prelude.{
  ℕ, zero, suc, ◌+◌, ◌-◌, Bool, true, false, List, [], ◌∷◌, if◌then◌else◌, ◌==◌,
}

-- `admissionClosed`, `syncRunning` and the counter of `syncWG`.
pub record Gate : Type 0 where
  pub admission_closed : Bool
  pub sync_running : Bool
  pub workers : ℕ

-- `tryAdmitSyncWorker`, under `admitMu`.
unfoldable pub try_admit_sync_worker : Gate → Gate × Bool
try_admit_sync_worker g =
    if g.admission_closed then (g, false) else (record g { workers = g.workers + 1 }, true)

-- `CloseAdmission`.
unfoldable pub close_admission : Gate → Gate
close_admission g = record g { admission_closed = true }

-- `syncRunning.CompareAndSwap(false, true)`.
unfoldable pub swap_running : Gate → Gate × Bool
swap_running g = if g.sync_running then (g, false) else (record g { sync_running = true }, true)

-- `Wait` returns from here on: admission is closed and the counter is zero.
unfoldable pub wait_returns : Gate → Bool
wait_returns g = if g.admission_closed then g.workers == 0 else false

-- Where a thread stands: at the begin of `sync`, behind its admission, at the begin of `StartSync`,
-- behind its swap, at work in `syncLeased`, behind `syncRunning.Store(false)`, and at its end, for
-- which the error is told apart.
pub data Phase : Type 0 where
  syncing admitted starting claimed working leaving finished in_progress shut_down : Phase

abbrev pub choose_phase : Gate × Bool → Phase → Phase → Gate × Phase
choose_phase (g, true) passed refused = (g, passed)
choose_phase (g, false) passed refused = (g, refused)

-- A thread's next atomic action. `sync` is admitted before it swaps, `StartSync` the other way
-- round; the deferred calls of both reset `syncRunning` before they count down. A thread that loses
-- the swap in `sync` only counts down.
unfoldable pub advance : Phase → Gate → Gate × Phase
unfolding try_admit_sync_worker swap_running
advance syncing g = choose_phase (try_admit_sync_worker g) admitted shut_down
advance admitted g = choose_phase (swap_running g) working leaving
advance starting g = choose_phase (swap_running g) claimed in_progress
advance claimed g =
    if g.admission_closed
    then (record g { sync_running = false }, shut_down)
    else (record g { workers = g.workers + 1 }, working)
advance working g = (record g { sync_running = false }, leaving)
advance leaving g = (record g { workers = g.workers - 1 }, finished)
advance finished g = (g, finished)
advance in_progress g = (g, in_progress)
advance shut_down g = (g, shut_down)

-- The process: the gate and its threads.
pub record Process : Type 0 where
  pub gate : Gate
  pub threads : List Phase

-- The thread at the given place makes its next action; a place without a thread changes nothing.
pub advance_at : ℕ → List Phase → Gate → Gate × List Phase
advance_at i [] g = (g, [])
advance_at zero (p ∷ ps) g = let (g', p') = advance p g in (g', p' ∷ ps)
advance_at (suc i) (p ∷ ps) g = let (g', ps') = advance_at i ps g in (g', p ∷ ps')

abbrev pub after_thread : ℕ → Process → Process
after_thread i s = let (g, ps) = advance_at i s.threads s.gate in record { gate = g; threads = ps }

-- Calls of `sync` and of `StartSync` arrive at any time, threads act in any order, and admission is
-- closed at any time.
pub data Step : Process → Process → Type 0 where
  calls_sync : (s : Process) → Step s (record s { threads = syncing ∷ s.threads })
  calls_start_sync : (s : Process) → Step s (record s { threads = starting ∷ s.threads })
  closes : (s : Process) → Step s (record s { gate = close_admission s.gate })
  acts : (s : Process) (i : ℕ) → Step s (after_thread i s)

pub data Reach (s : Process) : Process → Type 0 where
  here : Reach s s
  next : {t u : Process} → Reach s t → Step t u → Reach s u

abbrev pub started : Process
started = record {
  gate = record { admission_closed = false; sync_running = false; workers = 0 };
  threads = [];
}
