-- ===== src/Usecase/SaveStatus/Attempted.antt =====
-- What `saveStatus` hands to `Save`, and what it publishes.
use sekai_master_api.Prelude.{
  Bool-cases, inl, inr, Bool, true, false, Option, none, some, All, ◌≡◌, refl, if◌then◌else◌,
}
use sekai_master_api.Prelude.Text.{Bytes}
use sekai_master_api.Masterdata.Types.{SyncStatus}
use sekai_master_api.Usecase.World.{World, State}
use sekai_master_api.Usecase.SaveStatus.{
  publish, save_status, is_interrupted, is_terminal_sync_status, suppressed, call_save, save_unless,
  after_save, retry_unless, conclude, join_errors, read_ctx,
}

module _ {P : Type 0} (w : World P) where
  -- The status as it is stored, with the run's token.
  abbrev pub stamped : SyncStatus → SyncStatus
  stamped status = record status { fencing_token = w.lease_token }

  module _ (Q : SyncStatus → Type 0) where
    abbrev AllAttempted : State P → Type 0
    AllAttempted s = All Q s.attempted

    if-AllAttempted :
        (b : Bool) (r q : State P × Option Bytes)
        → AllAttempted r.0
        → AllAttempted q.0
        → AllAttempted (if b then r else q).0
    if-AllAttempted true r q hr hq = hr
    if-AllAttempted false r q hr hq = hq

    conclude-AllAttempted :
        (status : SyncStatus) (r : State P × Option Bytes)
        → AllAttempted r.0
        → AllAttempted (conclude w status r).0
    unfolding conclude publish
    conclude-AllAttempted status (s, none) h = h
    conclude-AllAttempted status (s, some e) h = h

    join_errors-AllAttempted :
        (e : Bytes) (r : State P × Option Bytes)
        → AllAttempted r.0
        → AllAttempted (join_errors w e r).0
    unfolding join_errors
    join_errors-AllAttempted e (s, none) h = h
    join_errors-AllAttempted e (s, some again) h = h

    call_save-AllAttempted :
        (status : SyncStatus) (s : State P)
        → Q status
        → AllAttempted s
        → AllAttempted (call_save w status s).0
    unfolding call_save
    call_save-AllAttempted status s q h = (q, h)

    suppressed-AllAttempted :
        (status : SyncStatus) (s : State P)
        → AllAttempted s
        → AllAttempted (suppressed w status s).0
    unfolding suppressed is_interrupted
    suppressed-AllAttempted status s h = elim (Bool-cases (is_terminal_sync_status status.status)) [
      | inl e ↦ rw e h
      | inr e ↦ rw e h
    ]

    retry_unless-AllAttempted :
        (e : Bytes) (status : SyncStatus) (r : State P × Bool)
        → Q status
        → AllAttempted r.0
        → AllAttempted (retry_unless w e status r).0
    unfolding retry_unless
    retry_unless-AllAttempted e status (s, true) q h = h
    retry_unless-AllAttempted e status (s, false) q h =
        conclude-AllAttempted status (join_errors w e (call_save w status s))
          (join_errors-AllAttempted e (call_save w status s) (call_save-AllAttempted status s q h))

    after_save-AllAttempted :
        (status : SyncStatus) (r : State P × Option Bytes)
        → Q status
        → AllAttempted r.0
        → AllAttempted (after_save w status r).0
    unfolding after_save
    after_save-AllAttempted status (s, none) q h = conclude-AllAttempted status (s, none) h
    after_save-AllAttempted status (s, some e) q h =
        if-AllAttempted _ (retry_unless w e status (suppressed w status (read_ctx w s)))
          (read_ctx w s, some e)
          (retry_unless-AllAttempted e status (suppressed w status (read_ctx w s)) q
            (suppressed-AllAttempted status (read_ctx w s) h))
          h

    save_unless-AllAttempted :
        (status : SyncStatus) (r : State P × Bool)
        → (r.1 ≡ false → Q (stamped status))
        → AllAttempted r.0
        → AllAttempted (save_unless w status r).0
    unfolding save_unless
    save_unless-AllAttempted status (s, true) q h = h
    save_unless-AllAttempted status (s, false) q h =
        after_save-AllAttempted (stamped status) (call_save w (stamped status) s) (q refl)
          (call_save-AllAttempted (stamped status) s (q refl) h)

    -- What holds of each status that is not suppressed holds of all that are attempted.
    pub save_status-AllAttempted :
        (status : SyncStatus) (s : State P)
        → ((suppressed w status s).1 ≡ false → Q (stamped status))
        → AllAttempted s
        → AllAttempted (save_status w status s).0
    unfolding save_status
    save_status-AllAttempted status s q h =
        if-AllAttempted w.has_status_store (save_unless w status (suppressed w status s)) (s, none)
          (save_unless-AllAttempted status (suppressed w status s) q
            (suppressed-AllAttempted status s h))
          h
