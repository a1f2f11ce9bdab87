-- ===== src/Usecase/Workers/Count.antt =====
-- The counter of `syncWG` and `syncRunning` against the threads.
use sekai_master_api.Prelude.{ℕ, zero, suc, ◌+◌, Bool, true, false, List, [], ◌∷◌, ◌≡◌, refl, arith}
use sekai_master_api.Usecase.Workers.{
  Gate, Phase, syncing, admitted, starting, claimed, working, leaving, finished, in_progress,
  shut_down, advance, advance_at, Process, try_admit_sync_worker, swap_running, close_admission,
  Step, calls_sync, calls_start_sync, closes, acts, Reach, here, next, started,
}

-- What a thread has counted in `syncWG`.
abbrev pub counted : Phase → ℕ
counted admitted = 1
counted working = 1
counted leaving = 1
counted _ = 0

-- Whether a thread has set `syncRunning`.
abbrev pub runs : Phase → ℕ
runs claimed = 1
runs working = 1
runs _ = 0

abbrev pub works : Phase → ℕ
works working = 1
works _ = 0

abbrev pub sum : (Phase → ℕ) → List Phase → ℕ
sum f [] = 0
sum f (p ∷ ps) = f p + sum f ps

abbrev pub flag : Bool → ℕ
flag true = 1
flag false = 0

-- The gate agrees with threads that the other threads have counted and set as given.
abbrev Agrees : Gate → ℕ → ℕ → Type 0
Agrees g n m = (g.workers ≡ n) × (flag g.sync_running ≡ m)

advance-Agrees :
    (p : Phase) (g : Gate) (n m : ℕ)
    → Agrees g (counted p + n) (runs p + m)
    → Agrees (advance p g).0 (counted (advance p g).1 + n) (runs (advance p g).1 + m)
unfolding advance try_admit_sync_worker swap_running
advance-Agrees syncing g n m (a, b) = ground arith
advance-Agrees admitted g n m (a, b) = ground arith
advance-Agrees starting g n m (a, b) = ground arith
advance-Agrees claimed g n m (a, b) = ground arith
advance-Agrees working g n m (a, b) = ground arith
advance-Agrees leaving g n m (a, b) = ground arith
advance-Agrees finished g n m h = h
advance-Agrees in_progress g n m h = h
advance-Agrees shut_down g n m h = h

-- At a place in the list, whatever is counted of the threads before it.
advance_at-Agrees :
    (i : ℕ) (ps : List Phase) (g : Gate) (n m : ℕ)
    → Agrees g (sum counted ps + n) (sum runs ps + m)
    → Agrees
        (advance_at i ps g).0
        (sum counted (advance_at i ps g).1 + n)
        (sum runs (advance_at i ps g).1 + m)
unfolding advance_at
advance_at-Agrees i [] g n m h = h
advance_at-Agrees zero (p ∷ ps) g n m (a, b) =
    let (x, y) =
      advance-Agrees p g (sum counted ps + n) (sum runs ps + m)
        (omega (arith, a), omega (arith, b)) in
    (omega (arith, x), omega (arith, y))
advance_at-Agrees (suc i) (p ∷ ps) g n m (a, b) =
    let (x, y) =
      advance_at-Agrees i ps g (counted p + n) (runs p + m) (omega (arith, a), omega (arith, b)) in
    (omega (arith, x), omega (arith, y))

-- The counter is the number of the threads that have counted themselves, and `syncRunning` is set
-- exactly while one thread has set it.
abbrev pub IsCounted : Process → Type 0
IsCounted s = Agrees s.gate (sum counted s.threads) (sum runs s.threads)

Step-IsCounted : {s t : Process} → Step s t → IsCounted s → IsCounted t
unfolding close_admission
Step-IsCounted (calls_sync s) (a, b) = (omega (arith, a), omega (arith, b))
Step-IsCounted (calls_start_sync s) (a, b) = (omega (arith, a), omega (arith, b))
Step-IsCounted (closes s) h = h
Step-IsCounted (acts s i) (a, b) =
    let (x, y) = advance_at-Agrees i s.threads s.gate 0 0 (omega (arith, a), omega (arith, b)) in
    (omega (arith, x), omega (arith, y))

pub Reach-IsCounted : {s : Process} → Reach started s → IsCounted s
Reach-IsCounted here = (refl, refl)
Reach-IsCounted (next r st) = Step-IsCounted st (Reach-IsCounted r)
