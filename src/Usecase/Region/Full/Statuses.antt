-- ===== src/Usecase/Region/Full/Statuses.antt =====
-- What a region's synchronisation hands to `Save` and to the publisher.
use sekai_master_api.Prelude.{
  Bool-cases, inl, inr, ℕ, true, false, All, ◌≡◌, refl, sym, ◌∙◌, false≢true,
}
use sekai_master_api.Masterdata.Types.{SyncStatus}
use sekai_master_api.Usecase.World.{World, State, ContextErr, initial}
use sekai_master_api.Usecase.SaveStatus.{
  publish, record_failure, is_interrupted, is_terminal_sync_status, suppressed,
}
use sekai_master_api.Usecase.SaveStatus.Attempted.{stamped, save_status-AllAttempted}
use sekai_master_api.Usecase.Region.{Task}
use sekai_master_api.Usecase.Region.Full.{sync_region, write}
use sekai_master_api.Usecase.Region.Full.Kept.{IsKept}
use sekai_master_api.Usecase.Region.Full.Walk.{sync_region_keeps}

abbrev pub IsUnended : SyncStatus → Type 0
IsUnended status = is_terminal_sync_status status.status ≡ false

module _ {P : Type 0} (w : World P) where
  -- An interrupted run suppresses each terminal status.
  terminal_suppressed :
      (status : SyncStatus) (s : State P)
      → w.ctx_err s.ctx_reads ≡ ContextErr.canceled
      → is_terminal_sync_status status.status ≡ true
      → (suppressed w status s).1 ≡ true
  unfolding suppressed is_interrupted
  terminal_suppressed status s stopped e = rw (e, stopped) refl

  suppressed-IsUnended :
      (status : SyncStatus) (s : State P)
      → w.ctx_err s.ctx_reads ≡ ContextErr.canceled
      → (suppressed w status s).1 ≡ false
      → IsUnended status
  suppressed-IsUnended status s stopped h =
      elim (Bool-cases (is_terminal_sync_status status.status)) [
        | inl e ↦ absurd (false≢true (sym h ∙ terminal_suppressed status s stopped e))
        | inr e ↦ e
      ]

  pub attempted-IsKept :
      (Q : SyncStatus → Type 0)
      → ((status : SyncStatus) (s : State P)
          → (suppressed w status s).1 ≡ false
          → Q (stamped w status))
      → IsKept w (λ s. All Q s.attempted)
  unfolding publish record_failure write is_interrupted
  attempted-IsKept Q q = record {
    on_publish = λ e s n h. h;
    on_failure = λ region message s h. h;
    on_write = λ what s h. h;
    on_read = λ s h. h;
    on_panic = λ s h. h;
    on_save = λ status s h. save_status-AllAttempted w Q status s (q status s) h;
  }

  -- When the context is cancelled throughout a run, `syncRegion` hands no status to `Save` that
  -- `isTerminalSyncStatus` takes for an end of the synchronisation, whatever the collaborators answer.
  pub interrupted_run-IsUnended :
      (t : Task)
      → ((n : ℕ) → w.ctx_err n ≡ ContextErr.canceled)
      → All IsUnended (sync_region w t initial).attempted
  interrupted_run-IsUnended t stopped =
      sync_region_keeps w (λ s. All IsUnended s.attempted)
        (attempted-IsKept IsUnended
          (λ status s. suppressed-IsUnended status s (stopped s.ctx_reads)))
        t initial _

  -- Each status that `syncRegion` hands to `Save` carries the fencing token of the run's lease.
  pub attempts_carry_token :
      (t : Task)
      → All (λ status. status.fencing_token ≡ w.lease_token) (sync_region w t initial).attempted
  attempts_carry_token t =
      sync_region_keeps w (λ s. All (λ status. status.fencing_token ≡ w.lease_token) s.attempted)
        (attempted-IsKept (λ status. status.fencing_token ≡ w.lease_token) (λ status s h. refl)) t
        initial _
