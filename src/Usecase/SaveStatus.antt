-- ===== src/Usecase/SaveStatus.antt =====
-- `saveStatus`, `publishSyncEvent`, `isInterrupted` and `isTerminalSyncStatus`.
pub mod Attempted
pub mod Live
use sekai_master_api.Prelude.{
  ℕ, ◌+◌, Bool, true, false, ◌&&◌, ◌||◌, Option, none, some, List, [], ◌∷◌, ◌++◌, if◌then◌else◌,
}
use sekai_master_api.Prelude.Text.{Bytes, codes, same}
use sekai_master_api.Masterdata.Types.{Source, SyncStatus}
use sekai_master_api.Usecase.World.{ContextErr, World, Event, State}

unfoldable pub is_terminal_sync_status : Bytes → Bool
is_terminal_sync_status status = same status (codes "success") || same status (codes "failed")

abbrev pub is_canceled : ContextErr → Bool
is_canceled ContextErr.canceled = true
is_canceled ContextErr.live = false
is_canceled ContextErr.expired = false

abbrev pub is_over : ContextErr → Bool
is_over ContextErr.live = false
is_over ContextErr.canceled = true
is_over ContextErr.expired = true

module _ {P : Type 0} (w : World P) where
  abbrev pub read_ctx : State P → State P
  read_ctx s = record s { ctx_reads = s.ctx_reads + 1 }

  -- `isInterrupted`, a read of `ctx.Err()`.
  unfoldable pub is_interrupted : State P → State P × Bool
  is_interrupted s = (read_ctx s, is_canceled (w.ctx_err s.ctx_reads))

  -- The publisher's errors are only logged.
  unfoldable pub publish : Event → State P → State P
  publish event s = record s { events = event ∷ s.events }

  unfoldable pub record_failure : Bytes → Bytes → State P → State P
  record_failure region message s = record s { failures = (region, message) ∷ s.failures }

  pub status_event : SyncStatus → Event
  status_event status = record {
    event = codes "master_data_status";
    status = status.status;
    region = status.region;
    phase = [];
    message = [];
    file_count = 0;
    duration_ms = 0;
    status_item = some status;
    regions = [];
    failed_regions = [];
  }

  -- One call of `Save`.
  unfoldable pub call_save : SyncStatus → State P → State P × Option Bytes
  call_save status s =
      let error = w.save_error s.save_calls in
      (
        record s {
          save_calls = s.save_calls + 1;
          attempted = status ∷ s.attempted;
          saved = elim error [ none ↦ status ∷ s.saved | some e ↦ s.saved ];
        },
        error,
      )

  -- `isTerminalSyncStatus(status) && isInterrupted(ctx)`: the context is read for a terminal status.
  unfoldable pub suppressed : SyncStatus → State P → State P × Bool
  unfolding is_interrupted
  suppressed status s =
      if is_terminal_sync_status status.status then is_interrupted s else (s, false)

  -- The end of `saveStatus`: an error is returned, else the status is published.
  pub conclude : SyncStatus → State P × Option Bytes → State P × Option Bytes
  unfolding publish status_event
  conclude status (s, none) = (publish (status_event status) s, none)
  conclude status (s, some e) = (s, some e)

  -- `"%w; retry failed: %v"` of both errors.
  pub join_errors : Bytes → State P × Option Bytes → State P × Option Bytes
  join_errors e (s, none) = (s, none)
  join_errors e (s, some again) = (s, some (e ++ (codes "; retry failed: " ++ again)))

  pub retry_unless : Bytes → SyncStatus → State P × Bool → State P × Option Bytes
  unfolding conclude join_errors call_save
  retry_unless e status (s, true) = (s, none)
  retry_unless e status (s, false) = conclude status (join_errors e (call_save status s))

  -- Behind the first call of `Save`: its error is retried when the context is over.
  pub after_save : SyncStatus → State P × Option Bytes → State P × Option Bytes
  unfolding conclude retry_unless suppressed
  after_save status (s, none) = conclude status (s, none)
  after_save status (s, some e) =
      if is_over (w.ctx_err s.ctx_reads)
      then retry_unless e status (suppressed status (read_ctx s))
      else (read_ctx s, some e)

  pub save_unless : SyncStatus → State P × Bool → State P × Option Bytes
  unfolding after_save call_save
  save_unless status (s, true) = (s, none)
  save_unless status (s, false) =
      let stamped = record status { fencing_token = w.lease_token } in
      after_save stamped (call_save stamped s)

  -- `none` is the result nil.
  unfoldable pub save_status : SyncStatus → State P → State P × Option Bytes
  unfolding save_unless suppressed
  save_status status s =
      if w.has_status_store then save_unless status (suppressed status s) else (s, none)
