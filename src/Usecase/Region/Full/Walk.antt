-- ===== src/Usecase/Region/Full/Walk.antt =====
-- What every effect keeps, a region's synchronisation keeps.
use sekai_master_api.Prelude.{ℕ, Bool, true, false, Option, none, some, List}
use sekai_master_api.Prelude.Text.{Bytes, codes}
use sekai_master_api.Usecase.World.{Answer, answered, failed, World, State, stored_region}
use sekai_master_api.Usecase.SaveStatus.{save_status}
use sekai_master_api.Usecase.Region.{Task, persist_pending_status}
use sekai_master_api.Usecase.Region.Full.{
  write, logged, fallback_status, file_paths, persist_running_status, persist_failed_status,
  fail_phase, fallen_back, unless_interrupted, fail_region_load, finish_region_success,
  version_written, version_phase, store_region_version, pruned_phase, prune_phase,
  prune_removed_entities, stored_phase, store_region_payload, loaded, run_region_full_sync,
  unless_handled, cold_first, ready_checked, sync_region,
}
use sekai_master_api.Usecase.Region.Full.Kept.{
  IsKept, if_kept, progress_kept, noted_kept, pending_kept, skip_kept,
}

module _ {P : Type 0} (w : World P) (I : State P → Type 0) (k : IsKept w I) where
  logged_kept : (r : State P × Option Bytes) → I r.0 → I (logged w r)
  unfolding logged
  logged_kept (s, e) h = h

  running_status_kept : (t : Task) (s : State P) → I s → I (persist_running_status w t s)
  unfolding persist_running_status
  running_status_kept t s h = logged_kept _ (k.on_save _ s h)

  failed_status_kept :
      (t : Task) (n : ℕ) (m : Bytes) (s : State P) → I s → I (persist_failed_status w t n m s)
  unfolding persist_failed_status
  failed_status_kept t n m s h = noted_kept w I k t _ _ (k.on_save _ s h)

  fail_phase_kept :
      (t : Task) (phase : Bytes) (n : ℕ) (m : Bytes) (s : State P)
      → I s
      → I (fail_phase w t phase n m s)
  unfolding fail_phase
  fail_phase_kept t phase n m s h =
      failed_status_kept t n m _ (k.on_failure _ _ _ (progress_kept w I k t _ phase m n _ s h))

  fallen_back_kept :
      (t : Task) (m : Bytes) (r : State P × Option Bytes) → I r.0 → I (fallen_back w t m r)
  unfolding fallen_back
  fallen_back_kept t m (s, none) h = progress_kept w I k t _ _ _ 0 _ s h
  fallen_back_kept t m (s, some e) h = fail_phase_kept t _ 0 m s h

  interrupted_kept :
      (t : Task) (m : Bytes) (r : State P × Bool) → I r.0 → I (unless_interrupted w t m r)
  unfolding unless_interrupted
  interrupted_kept t m (s, true) h = h
  interrupted_kept t m (s, false) h =
      if_kept w I k _ (fallen_back w t m (save_status w (fallback_status w t) s))
        (fail_phase w t (codes "load") 0 m s) (fallen_back_kept t m _ (k.on_save _ s h))
        (fail_phase_kept t _ 0 m s h)

  load_failed_kept : (t : Task) (m : Bytes) (s : State P) → I s → I (fail_region_load w t m s)
  unfolding fail_region_load
  load_failed_kept t m s h = interrupted_kept t m _ (k.on_read s h)

  finish_kept : (t : Task) (n : ℕ) (s : State P) → I s → I (finish_region_success w t n s)
  unfolding finish_region_success
  finish_kept t n s h = noted_kept w I k t _ _ (k.on_save _ _ (progress_kept w I k t _ _ _ n _ s h))

  version_written_kept :
      (t : Task) (files : List (Bytes × P)) (v : P) (e : Option Bytes) (s : State P)
      → I s
      → I (version_written w t files v e s)
  unfolding version_written
  version_written_kept t files v none s h = finish_kept t _ _ (k.on_write _ s h)
  version_written_kept t files v (some e) s h = fail_phase_kept t _ _ e _ (k.on_write _ s h)

  version_phase_kept :
      (t : Task) (files : List (Bytes × P)) (o : Option (P → Option Bytes)) (v : Option P)
      (s : State P)
      → I s
      → I (version_phase w t files o v s)
  unfolding version_phase
  version_phase_kept t files none v s h = finish_kept t _ s h
  version_phase_kept t files (some store) none s h = finish_kept t _ s h
  version_phase_kept t files (some store) (some v) s h =
      version_written_kept t files v (store v) s h

  version_kept :
      (t : Task) (files : List (Bytes × P)) (s : State P)
      → I s
      → I (store_region_version w t files s)
  unfolding store_region_version
  version_kept t files s h = version_phase_kept t files _ _ s h

  pruned_kept :
      (t : Task) (files : List (Bytes × P)) (a : Answer (List Bytes)) (s : State P)
      → I s
      → I (pruned_phase w t files a s)
  unfolding pruned_phase
  pruned_kept t files (answered removed) s h = version_kept t files _ (k.on_write _ s h)
  pruned_kept t files (failed e) s h = fail_phase_kept t _ _ e _ (k.on_write _ s h)

  prune_phase_kept :
      (t : Task) (files : List (Bytes × P)) (o : Option (List Bytes → Answer (List Bytes)))
      (s : State P)
      → I s
      → I (prune_phase w t files o s)
  unfolding prune_phase
  prune_phase_kept t files none s h = version_kept t files s h
  prune_phase_kept t files (some prune) s h =
      if_kept w I k _ (store_region_version w t files s)
        (pruned_phase w t files (prune (file_paths w files)) s) (version_kept t files s h)
        (pruned_kept t files _ s h)

  prune_kept :
      (t : Task) (files : List (Bytes × P)) (s : State P)
      → I s
      → I (prune_removed_entities w t files s)
  unfolding prune_removed_entities
  prune_kept t files s h = prune_phase_kept t files _ s h

  stored_kept :
      (t : Task) (files : List (Bytes × P)) (e : Option Bytes) (s : State P)
      → I s
      → I (stored_phase w t files e s)
  unfolding stored_phase
  stored_kept t files none s h = prune_kept t files s h
  stored_kept t files (some e) s h = fail_phase_kept t _ _ e s h

  store_kept :
      (t : Task) (files : List (Bytes × P)) (s : State P)
      → I s
      → I (store_region_payload w t files s)
  unfolding store_region_payload
  store_kept t files s h =
      if_kept w I k w.has_cache
        (stored_phase w t files (w.store_region files) (write w (stored_region files) s))
        (record s { panicked = true }) (stored_kept t files _ _ (k.on_write _ s h)) (k.on_panic s h)

  loaded_kept : (t : Task) (a : Answer (List (Bytes × P))) (s : State P) → I s → I (loaded w t a s)
  unfolding loaded
  loaded_kept t (failed m) s h = load_failed_kept t m s h
  loaded_kept t (answered files) s h = store_kept t files _ (progress_kept w I k t _ _ _ _ 0 s h)

  full_kept : (t : Task) (s : State P) → I s → I (run_region_full_sync w t s)
  unfolding run_region_full_sync
  full_kept t s h =
      loaded_kept t _ _ (progress_kept w I k t _ _ _ 0 0 _ (running_status_kept t s h))

  handled_kept : (r : Task × State P × Bool) → I r.1 → I (unless_handled w r)
  unfolding unless_handled
  handled_kept (t, s, true) h = h
  handled_kept (t, s, false) h = full_kept t s h

  cold_kept : (t : Task) (s : State P) → I s → I (cold_first w t s)
  unfolding cold_first
  cold_kept t s h =
      if_kept w I k t.cache_ready s (persist_pending_status w t s) h (pending_kept w I k t s h)

  ready_kept : (t : Task) (a : Answer Bool) (s : State P) → I s → I (ready_checked w t a s)
  unfolding ready_checked
  ready_kept t (failed e) s h = k.on_failure _ _ s h
  ready_kept t (answered ready) s h =
      let t' = record t { cache_ready = ready } in
      handled_kept _ (skip_kept w I k t' _ (cold_kept t' s h))

  -- What each effect keeps, `syncRegion` keeps.
  pub sync_region_keeps : (t : Task) (s : State P) → I s → I (sync_region w t s)
  unfolding sync_region
  sync_region_keeps t s h = ready_kept t _ s h
