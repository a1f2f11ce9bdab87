-- ===== src/Usecase/Job/Tasks.antt =====
-- The tasks that a job makes of its sources and of the statuses it has read, and how it goes on
-- from region to region.
use sekai_master_api.Prelude.{
  Bool-cases, inl, inr, Bool, true, false, Option, none, some, List, [], ◌∷◌, length, ◌==◌, ◌≡◌,
  refl, ◌∙◌, All,
}
use sekai_master_api.Prelude.Text.{Bytes, same, same→eq, trim_space}
use sekai_master_api.Masterdata.Types.{Source, SyncStatus}
use sekai_master_api.Usecase.World.{State, Answer, answered, failed}
use sekai_master_api.Usecase.Region.Full.Outcome.{IsOwn}
use sekai_master_api.Usecase.StatusQueries.{
  StatusStore, StatusMap, find_status, put_statuses, add_successes, maps_of, load_status_map,
}
use sekai_master_api.Usecase.Job.{Job, or_zero, is_found, in_front, task_of, task_for}

-- Each status stands under its region.
abbrev AreKeyed : StatusMap → Type 0
AreKeyed entries = All (λ entry. entry.1.region ≡ entry.0) entries

put-AreKeyed :
    (statuses : List SyncStatus) (entries : StatusMap)
    → AreKeyed entries
    → AreKeyed (put_statuses statuses entries)
unfolding put_statuses
put-AreKeyed [] entries h = h
put-AreKeyed (status ∷ statuses) entries h =
    elim (Bool-cases (length (trim_space status.region) == 0)) [
      | inl e ↦ rw e (put-AreKeyed statuses entries h)
      | inr e ↦ rw e (put-AreKeyed statuses ((status.region, status) ∷ entries) (refl, h))
    ]

add-AreKeyed :
    (successes : Option (Answer (List SyncStatus))) (entries : StatusMap)
    → AreKeyed entries
    → AreKeyed (add_successes successes entries)
add-AreKeyed none entries h = h
add-AreKeyed (some (failed e)) entries h = h
add-AreKeyed (some (answered statuses)) entries h = put-AreKeyed statuses entries h

maps-AreKeyed :
    (listed : Answer (List SyncStatus)) (successes : Option (Answer (List SyncStatus)))
    → AreKeyed (maps_of listed successes).0
maps-AreKeyed (failed e) successes = tt
maps-AreKeyed (answered statuses) successes =
    add-AreKeyed successes (put_statuses statuses []) (put-AreKeyed statuses [] tt)

-- The previous statuses that a job reads stand under their regions.
load-AreKeyed : (store : Option StatusStore) → AreKeyed (load_status_map store).0
unfolding load_status_map
load-AreKeyed none = tt
load-AreKeyed (some store) = maps-AreKeyed store.list store.latest_success

find-AreKeyed :
    (region : Bytes) (entries : StatusMap)
    → AreKeyed entries
    → is_found (find_status region entries) ≡ true
    → (or_zero (find_status region entries)).region ≡ region
unfolding find_status
find-AreKeyed region [] h found = absurd cc
find-AreKeyed region ((key, status) ∷ entries) h found = elim (Bool-cases (same key region)) [
  | inl e ↦ rw e (h.0 ∙ same→eq key region e)
  | inr e ↦ rw e (find-AreKeyed region entries h.1 (rw e at found))
]

-- What holds of the state behind a region and of the last state behind it holds at the end.
pub in_front_kept :
    {P : Type 0} (I : State P → Type 0) (s : State P) (rest : State P × List (State P)) (b : Bool)
    → I s
    → I rest.0
    → I (in_front s rest b).0
unfolding in_front
in_front_kept I s rest true h k = h
in_front_kept I s (last, states) false h k = k

module _ {P : Type 0} (job : Job P) (source : Source) where
  pub task-source : (task_for job source).source ≡ source
  unfolding task_of
  task-source = refl

  -- The previous status of a task is one of its region.
  pub task-IsOwn : IsOwn (task_for job source)
  unfolding task_of
  task-IsOwn known =
      find-AreKeyed source.region (load_status_map job.store).0 (load-AreKeyed job.store) known
