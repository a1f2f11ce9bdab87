-- ===== src/Usecase/Region/Full/Kept.antt =====
-- What every effect keeps, the shortcuts of a region's synchronisation keep.
use sekai_master_api.Prelude.{
  Bool-cases, inl, inr, ℕ, Bool, true, false, not, ◌&&◌, Option, none, some, if◌then◌else◌, ◌≡◌,
  refl,
}
use sekai_master_api.Prelude.Text.{Bytes, trim_space}
use sekai_master_api.Masterdata.Types.{SyncStatus}
use sekai_master_api.Usecase.World.{Answer, answered, failed, World, Event, State, Write}
use sekai_master_api.Usecase.SaveStatus.{publish, record_failure, save_status, is_interrupted}
use sekai_master_api.Usecase.Region.{
  Task, derived_ready, version_payload_stored, version_manifests_match, progress, noted, running,
  persist_pending_status, persist_unchanged_skip_status, keep_stored, checked,
  try_skip_unchanged_commit, manifest_kept, try_skip_unchanged_manifest, try_skip_changed_commit,
  or_changed, resolved, maybe_skip_region_sync,
}
use sekai_master_api.Usecase.Region.Full.{write}

-- An invariant that each effect on the state keeps.
pub record IsKept {P : Type 0} (w : World P) (I : State P → Type 0) : Type 0 where
  pub on_publish : (e : Event) (s : State P) → e.status_item ≡ none → I s → I (publish w e s)
  pub on_failure :
      (region message : Bytes) (s : State P) → I s → I (record_failure w region message s)
  pub on_write : (what : Write P) (s : State P) → I s → I (write w what s)
  pub on_read : (s : State P) → I s → I (is_interrupted w s).0
  pub on_panic : (s : State P) → I s → I (record s { panicked = true })
  pub on_save : (status : SyncStatus) (s : State P) → I s → I (save_status w status s).0

module _ {P : Type 0} (w : World P) (I : State P → Type 0) (k : IsKept w I) where
  pub if_kept : (b : Bool) (s u : State P) → I s → I u → I (if b then s else u)
  if_kept true s u hs hu = hs
  if_kept false s u hs hu = hu

  if_kept₁ : (r q : State P × Bool) (b : Bool) → I r.0 → I q.0 → I (if b then r else q).0
  if_kept₁ r q true hr hq = hr
  if_kept₁ r q false hr hq = hq

  if_kept₃ : (r q : Task × State P × Bool) (b : Bool) → I r.1 → I q.1 → I (if b then r else q).1
  if_kept₃ r q true hr hq = hr
  if_kept₃ r q false hr hq = hq

  pub progress_kept :
      (t : Task) (a b m : Bytes) (n d : ℕ) (s : State P) → I s → I (progress w t a b m n d s)
  unfolding progress
  progress_kept t a b m n d s h = k.on_publish _ s refl h

  running_kept : (t : Task) (m : Bytes) (s : State P) → I s → I (running w t m s)
  unfolding running
  running_kept t m s h = progress_kept t _ _ m 0 0 s h

  pub noted_kept :
      (t : Task) (what : Bytes) (r : State P × Option Bytes) → I r.0 → I (noted w t what r)
  unfolding noted
  noted_kept t what (s, none) h = h
  noted_kept t what (s, some e) h = k.on_failure _ _ s h

  pub pending_kept : (t : Task) (s : State P) → I s → I (persist_pending_status w t s)
  unfolding persist_pending_status
  pending_kept t s h = noted_kept t _ _ (k.on_save _ s h)

  unchanged_kept : (t : Task) (s : State P) → I s → I (persist_unchanged_skip_status w t s)
  unfolding persist_unchanged_skip_status
  unchanged_kept t s h = noted_kept t _ _ (k.on_save _ s h)

  keep_stored_kept : (t : Task) (s : State P) → I s → I (keep_stored w t s).0
  unfolding keep_stored
  keep_stored_kept t s h = elim (Bool-cases (not (derived_ready w))) [
    | inl e ↦ rw e (running_kept t _ s h)
    | inr e ↦ elim (Bool-cases (not (version_payload_stored w))) [
      | inl f ↦ rw (e, f) (running_kept t _ s h)
      | inr f ↦ rw (e, f) (unchanged_kept t _ (progress_kept t _ _ _ 0 0 s h))
    ]
  ]

  checked_kept : (t : Task) (o : Option (Answer Bool)) (s : State P) → I s → I (checked w t o s).0
  unfolding checked
  checked_kept t none s h = h
  checked_kept t (some (failed e)) s h = running_kept t _ s h
  checked_kept t (some (answered false)) s h = running_kept t _ s h
  checked_kept t (some (answered true)) s h = keep_stored_kept t s h

  unchanged_commit_kept : (t : Task) (s : State P) → I s → I (try_skip_unchanged_commit w t s).0
  unfolding try_skip_unchanged_commit
  unchanged_commit_kept t s h = if_kept₁ (checked w t _ s) (s, false) _ (checked_kept t _ s h) h

  manifest_kept_kept : (t : Task) (r : State P × Option Bytes) → I r.0 → I (manifest_kept w t r).0
  unfolding manifest_kept
  manifest_kept_kept t (s, none) h = progress_kept t _ _ _ _ 0 s h
  manifest_kept_kept t (s, some e) h = k.on_failure _ _ s h

  unchanged_manifest_kept : (t : Task) (s : State P) → I s → I (try_skip_unchanged_manifest w t s).0
  unfolding try_skip_unchanged_manifest
  unchanged_manifest_kept t s h =
      elim (Bool-cases (not (t.cache_ready && version_manifests_match w))) [
        | inl e ↦ rw e h
        | inr e ↦ elim (Bool-cases (not (derived_ready w))) [
          | inl f ↦ rw (e, f) h
          | inr f ↦ rw (e, f) (manifest_kept_kept t _ (k.on_save _ s h))
        ]
      ]

  changed_commit_kept : (t : Task) (s : State P) → I s → I (try_skip_changed_commit w t s).0
  unfolding try_skip_changed_commit
  changed_commit_kept t s h =
      if_kept₁ (try_skip_unchanged_manifest w t s) (s, false) _ (unchanged_manifest_kept t s h) h

  or_changed_kept : (t : Task) (r : State P × Bool) → I r.0 → I (or_changed w t r).0
  unfolding or_changed
  or_changed_kept t (s, true) h = h
  or_changed_kept t (s, false) h = changed_commit_kept t s h

  resolved_kept :
      (t : Task) (o : Option (Answer Bytes)) (s : State P) → I s → I (resolved w t o s).1
  unfolding resolved
  resolved_kept t none s h = h
  resolved_kept t (some (failed e)) s h = running_kept t _ s h
  resolved_kept t (some (answered commit)) s h =
      let t' = record t { resolved_commit = trim_space commit } in
      let r = or_changed w t' (try_skip_unchanged_commit w t' s) in
      if_kept₃ (t', s, false) (t', r.0, r.1) t.force h
        (or_changed_kept t' _ (unchanged_commit_kept t' s h))

  pub skip_kept : (t : Task) (s : State P) → I s → I (maybe_skip_region_sync w t s).1
  unfolding maybe_skip_region_sync
  skip_kept t s h = resolved_kept t w.resolve_version s h
