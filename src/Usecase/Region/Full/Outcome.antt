-- ===== src/Usecase/Region/Full/Outcome.antt =====
-- How a region's synchronisation ends while the context is live, the store saves and the region has a store.
use sekai_master_api.Prelude.{
  Bool-cases, false≢true, inl, inr, Bool, true, false, not, &&-true, Option, none, some,
  if◌then◌else◌, ◌≡◌, refl, subst,
}
use sekai_master_api.Prelude.Text.{Bytes, trim_space}
use sekai_master_api.Masterdata.Types.{SyncStatus}
use sekai_master_api.Usecase.World.{Answer, answered, failed, World, State}
use sekai_master_api.Usecase.SaveStatus.{publish}
use sekai_master_api.Usecase.SaveStatus.Live.{IsLive, IsSaved, save_status-IsSaved}
use sekai_master_api.Usecase.Region.{
  Task, running, unchanged_commit, kept_status, is_success, derived_ready, version_payload_stored,
  progress, persist_unchanged_skip_status, keep_stored, checked, try_skip_unchanged_commit,
  manifest_kept, try_skip_unchanged_manifest, try_skip_changed_commit, or_changed, resolved,
  maybe_skip_region_sync, region_cache_ready,
}
use sekai_master_api.Usecase.Region.Full.{
  run_region_full_sync, unless_handled, ready_checked, sync_region,
}
use sekai_master_api.Usecase.Region.Full.Endings.{HasEnded, success, noted-HasEnded, full-HasEnded}

-- A region that a shortcut handles has ended.
record Handled {P : Type 0} (region : Bytes) (r : State P × Bool) : Type 0 where
  ends : r.1 ≡ true → HasEnded region r.0

-- The previous status of a task, if there is one, is a status of its region.
abbrev pub IsOwn : Task → Type 0
IsOwn t = t.has_previous_status ≡ true → t.previous.region ≡ t.source.region

module _ {P : Type 0} (w : World P) (live : IsLive w) (cached : w.has_cache ≡ true) where
  unhandled : (region : Bytes) (s : State P) → Handled region (s, false)
  unhandled region s = record { ends = λ h. absurd (false≢true h) }

  if-Handled :
      (region : Bytes) (b : Bool) (r q : State P × Bool)
      → Handled region r
      → Handled region q
      → Handled region (if b then r else q)
  if-Handled region true r q hr hq = hr
  if-Handled region false r q hr hq = hq

  -- A guard that the handling branch relies on.
  guard-Handled :
      (region : Bytes) (b : Bool) (r : State P × Bool) (s : State P)
      → (b ≡ true → Handled region r)
      → Handled region (if b then r else (s, false))
  guard-Handled region true r s h = h refl
  guard-Handled region false r s h = unhandled region s

  -- The previous status is a success of the region.
  abbrev IsKeepable : Task → Type 0
  IsKeepable t = (t.previous.region ≡ t.source.region) × (is_success t.previous.status ≡ true)

  unchanged-HasEnded :
      (t : Task) (s : State P)
      → IsKeepable t
      → HasEnded t.source.region (persist_unchanged_skip_status w t s)
  unfolding persist_unchanged_skip_status
  unchanged-HasEnded t s good = noted-HasEnded w live cached t _ _ s (good.0, inl good.1)

  keep_stored-Handled :
      (t : Task) (s : State P) → IsKeepable t → Handled t.source.region (keep_stored w t s)
  unfolding keep_stored
  keep_stored-Handled t s good = elim (Bool-cases (not (derived_ready w))) [
    | inl e ↦ rw e (unhandled t.source.region (running w t _ s))
    | inr e ↦ elim (Bool-cases (not (version_payload_stored w))) [
      | inl f ↦ rw (e, f) (unhandled t.source.region (running w t _ s))
      | inr f ↦
          rw (e, f) (record { ends = λ h. unchanged-HasEnded t (progress w t _ _ _ 0 0 s) good })
    ]
  ]

  checked-Handled :
      (t : Task) (o : Option (Answer Bool)) (s : State P)
      → IsKeepable t
      → Handled t.source.region (checked w t o s)
  unfolding checked
  checked-Handled t none s good = unhandled _ s
  checked-Handled t (some (failed e)) s good = unhandled _ _
  checked-Handled t (some (answered false)) s good = unhandled _ _
  checked-Handled t (some (answered true)) s good = keep_stored-Handled t s good

  unchanged-IsKeepable : (t : Task) → IsOwn t → unchanged_commit w t ≡ true → IsKeepable t
  unfolding unchanged_commit
  unchanged-IsKeepable t own h =
      let (known, same_commit) = &&-true t.has_previous_status _ h in
      (own known, (&&-true _ _ same_commit).0)

  unchanged_commit-Handled :
      (t : Task) (s : State P) → IsOwn t → Handled t.source.region (try_skip_unchanged_commit w t s)
  unfolding try_skip_unchanged_commit
  unchanged_commit-Handled t s own =
      guard-Handled t.source.region (unchanged_commit w t) (checked w t _ s) s
        (λ h. checked-Handled t _ s (unchanged-IsKeepable t own h))

  manifest-Handled :
      (t : Task) (status : SyncStatus) (s : State P) (r : State P × Option Bytes)
      → IsSaved w live status s r
      → status.region ≡ t.source.region
      → is_success status.status ≡ true
      → Handled t.source.region (manifest_kept w t r)
  unfolding manifest_kept progress publish
  manifest-Handled t status s (u, none) (a, b, c) own good = record {
    ends = λ h. (_, s.saved, a, (own, inl good));
  }
  manifest-Handled t status s (u, some e) (a, b, c) own good = absurd cc

  unchanged_manifest-Handled :
      (t : Task) (s : State P)
      → t.previous.region ≡ t.source.region
      → Handled t.source.region (try_skip_unchanged_manifest w t s)
  unfolding try_skip_unchanged_manifest kept_status
  unchanged_manifest-Handled t s own = if-Handled _ _ _ _ (unhandled _ s) (
      if-Handled _ _ _ _ (unhandled _ s) (
        manifest-Handled t (kept_status w t) s _ (save_status-IsSaved w live (kept_status w t) s)
          own success))

  or_changed-Handled :
      (t : Task) (r : State P × Bool)
      → IsOwn t
      → Handled t.source.region r
      → Handled t.source.region (or_changed w t r)
  unfolding or_changed try_skip_changed_commit
  or_changed-Handled t (s, true) own h = h
  or_changed-Handled t (s, false) own h =
      guard-Handled _ _ _ s
        (λ e. unchanged_manifest-Handled t s (own (&&-true t.has_previous_status _ e).0))

  -- The task with its commit resolved, the state, and whether the region is handled.
  record IsSkipped (region : Bytes) (r : Task × State P × Bool) : Type 0 where
    skips : Handled region (r.1, r.2)
    stays : r.0.source.region ≡ region

  unless-IsSkipped :
      (t : Task) (b : Bool) (r : State P × Bool) (s : State P)
      → Handled t.source.region r
      → IsSkipped t.source.region (if b then (t, s, false) else (t, r.0, r.1))
  unless-IsSkipped t true r s h = record { skips = unhandled _ s; stays = refl }
  unless-IsSkipped t false r s h = record { skips = h; stays = refl }

  resolved-IsSkipped :
      (t : Task) (o : Option (Answer Bytes)) (s : State P)
      → IsOwn t
      → IsSkipped t.source.region (resolved w t o s)
  unfolding resolved
  resolved-IsSkipped t none s own = record { skips = unhandled _ s; stays = refl }
  resolved-IsSkipped t (some (failed e)) s own = record {
    skips = unhandled _ (running w t _ s);
    stays = refl;
  }
  resolved-IsSkipped t (some (answered commit)) s own =
      let t' = record t { resolved_commit = trim_space commit } in
      unless-IsSkipped t' t.force (or_changed w t' (try_skip_unchanged_commit w t' s)) s
        (or_changed-Handled t' _ own (unchanged_commit-Handled t' s own))

  handled-HasEnded :
      (region : Bytes) (r : Task × State P × Bool)
      → IsSkipped region r
      → HasEnded region (unless_handled w r)
  unfolding unless_handled
  handled-HasEnded region (t, s, true) h = h.skips.ends refl
  handled-HasEnded region (t, s, false) h =
      subst (λ r. HasEnded r (run_region_full_sync w t s)) h.stays (full-HasEnded w live cached t s)

  ready-HasEnded :
      (t : Task) (a : Answer Bool) (ready : Bool) (s : State P)
      → IsOwn t
      → a ≡ answered ready
      → HasEnded t.source.region (ready_checked w t a s)
  unfolding ready_checked maybe_skip_region_sync
  ready-HasEnded t (failed e) ready s own h = absurd cc
  ready-HasEnded t (answered b) ready s own h =
      handled-HasEnded t.source.region _
        (resolved-IsSkipped (record t { cache_ready = b }) w.resolve_version _ own)

  -- While the context is live and each call of `Save` returns nil, when the store of the region's
  -- data is not nil, its readiness is answered, and the previous status is one of the region,
  -- `syncRegion` leaves as the status saved last a status of the region: a success, or a failure of
  -- which a failure is recorded, whatever else the collaborators answer.
  pub sync_region-HasEnded :
      (t : Task) (ready : Bool) (s : State P)
      → IsOwn t
      → region_cache_ready w t.source.region ≡ answered ready
      → HasEnded t.source.region (sync_region w t s)
  unfolding sync_region
  sync_region-HasEnded t ready s own h = ready-HasEnded t _ ready s own h
