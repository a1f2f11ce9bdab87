-- ===== src/Usecase/Workers/Exclusion.antt =====
-- At most one job at work, and none behind `Wait`.
use sekai_master_api.Prelude.{ℕ, zero, suc, ◌≤◌, Bool, true, false, List, [], ◌∷◌, ◌≡◌, refl, arith}
use sekai_master_api.Usecase.Workers.{
  Gate, Phase, syncing, admitted, starting, claimed, working, leaving, finished, in_progress,
  shut_down, advance, advance_at, Process, try_admit_sync_worker, swap_running, close_admission,
  wait_returns, Step, calls_sync, calls_start_sync, closes, acts, Reach, here, next, started,
}
use sekai_master_api.Usecase.Workers.Count.{
  counted, runs, works, sum, flag, IsCounted, Reach-IsCounted,
}

sum_mono : (f g : Phase → ℕ) → ((p : Phase) → f p ≤ g p) → (ps : List Phase) → sum f ps ≤ sum g ps
sum_mono f g h [] = omega arith
sum_mono f g h (p ∷ ps) = omega (arith, h p, sum_mono f g h ps)

works-le-runs : (p : Phase) → works p ≤ runs p
works-le-runs syncing = omega arith
works-le-runs admitted = omega arith
works-le-runs starting = omega arith
works-le-runs claimed = omega arith
works-le-runs working = omega arith
works-le-runs leaving = omega arith
works-le-runs finished = omega arith
works-le-runs in_progress = omega arith
works-le-runs shut_down = omega arith

works-le-counted : (p : Phase) → works p ≤ counted p
works-le-counted syncing = omega arith
works-le-counted admitted = omega arith
works-le-counted starting = omega arith
works-le-counted claimed = omega arith
works-le-counted working = omega arith
works-le-counted leaving = omega arith
works-le-counted finished = omega arith
works-le-counted in_progress = omega arith
works-le-counted shut_down = omega arith

flag-le : (b : Bool) → flag b ≤ 1
flag-le true = omega arith
flag-le false = omega arith

-- In whatever order threads of `sync` and `StartSync` act and admission is closed, at most one of
-- them is at work in `syncLeased` at a time.
pub one_job_at_work : {s : Process} → Reach started s → sum works s.threads ≤ 1
one_job_at_work {s} r = omega (
  arith,
  sum_mono works runs works-le-runs s.threads,
  (Reach-IsCounted r).1,
  flag-le s.gate.sync_running,
)

-- Admission is closed, and no thread has counted itself.
abbrev IsOver : Gate → ℕ → Type 0
IsOver g n = (g.admission_closed ≡ true) × (n ≡ 0)

advance-IsOver :
    (p : Phase) (g : Gate) → IsOver g (counted p) → IsOver (advance p g).0 (counted (advance p g).1)
unfolding advance try_admit_sync_worker swap_running
advance-IsOver syncing g (a, b) = ground arith
advance-IsOver admitted g (a, b) = ground arith
advance-IsOver starting g (a, b) = ground arith
advance-IsOver claimed g (a, b) = ground arith
advance-IsOver working g (a, b) = ground arith
advance-IsOver leaving g (a, b) = ground arith
advance-IsOver finished g h = h
advance-IsOver in_progress g h = h
advance-IsOver shut_down g h = h

advance_at-IsOver :
    (i : ℕ) (ps : List Phase) (g : Gate)
    → IsOver g (sum counted ps)
    → IsOver (advance_at i ps g).0 (sum counted (advance_at i ps g).1)
unfolding advance_at
advance_at-IsOver i [] g h = h
advance_at-IsOver zero (p ∷ ps) g (a, b) =
    let (x, y) = advance-IsOver p g (a, omega (arith, b)) in (x, omega (arith, y, b))
advance_at-IsOver (suc i) (p ∷ ps) g (a, b) =
    let (x, y) = advance_at-IsOver i ps g (a, omega (arith, b)) in (x, omega (arith, y, b))

abbrev IsDrained : Process → Type 0
IsDrained s = IsOver s.gate (sum counted s.threads)

Step-IsDrained : {s t : Process} → Step s t → IsDrained s → IsDrained t
unfolding close_admission
Step-IsDrained (calls_sync s) (a, b) = (a, omega (arith, b))
Step-IsDrained (calls_start_sync s) (a, b) = (a, omega (arith, b))
Step-IsDrained (closes s) (a, b) = (refl, b)
Step-IsDrained (acts s i) h = advance_at-IsOver i s.threads s.gate h

Reach-IsDrained : {s t : Process} → Reach s t → IsDrained s → IsDrained t
Reach-IsDrained here h = h
Reach-IsDrained (next r st) h = Step-IsDrained st (Reach-IsDrained r h)

returned-IsDrained : (s : Process) → wait_returns s.gate ≡ true → IsCounted s → IsDrained s
unfolding wait_returns
returned-IsDrained s h (a, b) = ground arith

-- From the moment at which `Wait` can return, no thread is at work in `syncLeased`, whatever calls
-- arrive and threads do afterwards.
pub none_at_work_after_wait :
    {s t : Process}
    → Reach started s
    → wait_returns s.gate ≡ true
    → Reach s t
    → sum works t.threads ≡ 0
none_at_work_after_wait {s} {t} r w later =
    let (a, b) = Reach-IsDrained later (returned-IsDrained s w (Reach-IsCounted r)) in
    omega (arith, sum_mono works counted works-le-counted t.threads, b)
