-- ===== src/Usecase/Region/Full/Endings.antt =====
-- How the full synchronisation ends while the context is live, the store saves and the region has a store.
use sekai_master_api.Prelude.{
  inl, inr, ◌⊎◌, ℕ, ◌<◌, arith, Bool, true, false, Option, none, some, List, ◌∷◌, if◌then◌else◌,
  length, ◌≡◌, refl, sym, subst,
}
use sekai_master_api.Prelude.Text.{Bytes, codes, trim_space, same, to_lower}
use sekai_master_api.Masterdata.Types.{SyncStatus}
use sekai_master_api.Usecase.World.{Answer, answered, failed, World, State}
use sekai_master_api.Usecase.SaveStatus.{publish, record_failure, save_status}
use sekai_master_api.Usecase.SaveStatus.Live.{
  IsLive, IsSaved, interrupted_never, save_status-IsSaved,
}
use sekai_master_api.Usecase.Region.{Task, is_success, task_status, progress, noted}
use sekai_master_api.Usecase.Region.Full.{
  fallback_status, file_paths, persist_failed_status, fail_phase, fallen_back, unless_interrupted,
  fail_region_load, finish_region_success, version_written, version_phase, store_region_version,
  pruned_phase, prune_phase, prune_removed_entities, stored_phase, store_region_payload, loaded,
  run_region_full_sync,
}

-- A status of the region that ends a run: a success, or a failure of which there is a record.
abbrev pub IsEnd : Bytes → SyncStatus → List (Bytes × Bytes) → Type 0
IsEnd region status failures =
    (status.region ≡ region)
    × ((is_success status.status ≡ true)
        ⊎ ((status.status ≡ codes "failed") × (0 < length failures)))

-- The status saved last ends the region's run.
abbrev pub HasEnded : {P : Type 0} → Bytes → State P → Type 0
HasEnded region s =
    (status : SyncStatus) × (rest : List SyncStatus) × (s.saved ≡ status ∷ rest)
    × IsEnd region status s.failures

pub success : is_success (codes "success") ≡ true
unfolding is_success same trim_space to_lower
success = refl

module _ {P : Type 0} (w : World P) (live : IsLive w) (cached : w.has_cache ≡ true) where
  noted-none :
      (t : Task) (what : Bytes) (r : State P × Option Bytes) → r.1 ≡ none → noted w t what r ≡ r.0
  unfolding noted
  noted-none t what (s, none) h = refl
  noted-none t what (s, some e) h = absurd cc

  saved-HasEnded :
      (region : Bytes) (status : SyncStatus) (s : State P) (r : State P × Option Bytes)
      → IsSaved w live status s r
      → IsEnd region status s.failures
      → HasEnded region r.0
  saved-HasEnded region status s r (a, b, c) end =
      (_, s.saved, a, subst (λ f. IsEnd region status f) (sym b) end)

  pub noted-HasEnded :
      (t : Task) (what : Bytes) (status : SyncStatus) (s : State P)
      → IsEnd t.source.region status s.failures
      → HasEnded t.source.region (noted w t what (save_status w status s))
  noted-HasEnded t what status s end =
      let done = save_status-IsSaved w live status s in
      subst (HasEnded t.source.region) (sym (noted-none t what (save_status w status s) done.2))
        (saved-HasEnded t.source.region status s (save_status w status s) done end)

  finish-HasEnded :
      (t : Task) (n : ℕ) (s : State P) → HasEnded t.source.region (finish_region_success w t n s)
  unfolding finish_region_success task_status
  finish-HasEnded t n s = noted-HasEnded t _ _ _ (refl, inl success)

  fail-HasEnded :
      (t : Task) (phase : Bytes) (n : ℕ) (m : Bytes) (s : State P)
      → HasEnded t.source.region (fail_phase w t phase n m s)
  unfolding fail_phase persist_failed_status record_failure task_status
  fail-HasEnded t phase n m s = noted-HasEnded t _ _ _ (refl, inr (refl, omega arith))

  version_written-HasEnded :
      (t : Task) (files : List (Bytes × P)) (v : P) (e : Option Bytes) (s : State P)
      → HasEnded t.source.region (version_written w t files v e s)
  unfolding version_written
  version_written-HasEnded t files v none s = finish-HasEnded t _ _
  version_written-HasEnded t files v (some e) s = fail-HasEnded t _ _ e _

  version_phase-HasEnded :
      (t : Task) (files : List (Bytes × P)) (o : Option (P → Option Bytes)) (v : Option P)
      (s : State P)
      → HasEnded t.source.region (version_phase w t files o v s)
  unfolding version_phase
  version_phase-HasEnded t files none v s = finish-HasEnded t _ s
  version_phase-HasEnded t files (some store) none s = finish-HasEnded t _ s
  version_phase-HasEnded t files (some store) (some v) s =
      version_written-HasEnded t files v (store v) s

  version-HasEnded :
      (t : Task) (files : List (Bytes × P)) (s : State P)
      → HasEnded t.source.region (store_region_version w t files s)
  unfolding store_region_version
  version-HasEnded t files s = version_phase-HasEnded t files _ _ s

  pruned-HasEnded :
      (t : Task) (files : List (Bytes × P)) (a : Answer (List Bytes)) (s : State P)
      → HasEnded t.source.region (pruned_phase w t files a s)
  unfolding pruned_phase
  pruned-HasEnded t files (answered removed) s = version-HasEnded t files _
  pruned-HasEnded t files (failed e) s = fail-HasEnded t _ _ e _

  if-HasEnded :
      (b : Bool) (region : Bytes) (s u : State P)
      → HasEnded region s
      → HasEnded region u
      → HasEnded region (if b then s else u)
  if-HasEnded true region s u hs hu = hs
  if-HasEnded false region s u hs hu = hu

  prune_phase-HasEnded :
      (t : Task) (files : List (Bytes × P)) (o : Option (List Bytes → Answer (List Bytes)))
      (s : State P)
      → HasEnded t.source.region (prune_phase w t files o s)
  unfolding prune_phase
  prune_phase-HasEnded t files none s = version-HasEnded t files s
  prune_phase-HasEnded t files (some prune) s =
      if-HasEnded _ _ (store_region_version w t files s)
        (pruned_phase w t files (prune (file_paths w files)) s) (version-HasEnded t files s)
        (pruned-HasEnded t files _ s)

  stored-HasEnded :
      (t : Task) (files : List (Bytes × P)) (e : Option Bytes) (s : State P)
      → HasEnded t.source.region (stored_phase w t files e s)
  unfolding stored_phase prune_removed_entities
  stored-HasEnded t files none s = prune_phase-HasEnded t files _ s
  stored-HasEnded t files (some e) s = fail-HasEnded t _ _ e s

  fallen_back-HasEnded :
      (t : Task) (m : Bytes) (status : SyncStatus) (s : State P) (r : State P × Option Bytes)
      → IsSaved w live status s r
      → status.region ≡ t.source.region
      → is_success status.status ≡ true
      → HasEnded t.source.region (fallen_back w t m r)
  unfolding fallen_back progress publish
  fallen_back-HasEnded t m status s (u, none) (a, b, c) own good = (_, s.saved, a, (own, inl good))
  fallen_back-HasEnded t m status s (u, some e) (a, b, c) own good = absurd cc

  load_failed-HasEnded :
      (t : Task) (m : Bytes) (r : State P × Bool)
      → r.1 ≡ false
      → HasEnded t.source.region (unless_interrupted w t m r)
  unfolding unless_interrupted fallback_status task_status
  load_failed-HasEnded t m (s, true) h = absurd cc
  load_failed-HasEnded t m (s, false) h =
      if-HasEnded _ _ (fallen_back w t m (save_status w (fallback_status w t) s))
        (fail_phase w t (codes "load") 0 m s)
        (fallen_back-HasEnded t m (fallback_status w t) s _
          (save_status-IsSaved w live (fallback_status w t) s) refl success)
        (fail-HasEnded t _ 0 m s)

  if_true-HasEnded :
      (region : Bytes) (b : Bool) (s u : State P)
      → b ≡ true
      → HasEnded region s
      → HasEnded region (if b then s else u)
  if_true-HasEnded region true s u h k = k
  if_true-HasEnded region false s u h k = absurd cc

  loaded-HasEnded :
      (t : Task) (a : Answer (List (Bytes × P))) (s : State P)
      → HasEnded t.source.region (loaded w t a s)
  unfolding loaded fail_region_load store_region_payload
  loaded-HasEnded t (failed m) s = load_failed-HasEnded t m _ (interrupted_never w live s)
  loaded-HasEnded t (answered files) s =
      if_true-HasEnded t.source.region w.has_cache _ _ cached (stored-HasEnded t files _ _)

  pub full-HasEnded :
      (t : Task) (s : State P) → HasEnded t.source.region (run_region_full_sync w t s)
  unfolding run_region_full_sync
  full-HasEnded t s = loaded-HasEnded t _ _
