-- ===== src/Usecase/CurrentEvent.antt =====
-- `CurrentEventUntil` of master_data_sync_usecase.go: the event whose window contains the moment,
-- and the next moment at which the answer can change.
pub mod Until
mod Examples
use sekai_master_api.Prelude.{
  ℕ, zero, suc, ◌+◌, Bool, true, false, not, ◌||◌, Option, none, some, List, [], ◌∷◌, length, ltb,
  ◌==◌, if◌then◌else◌,
}
use sekai_master_api.Prelude.Text.{Bytes, codes, trim_space, to_lower}
use sekai_master_api.Masterdata.Json.{Fields, Runtime}
use sekai_master_api.Usecase.World.{Answer, answered, failed}
use sekai_master_api.Usecase.EventTime.{Clock, resolve_event_time_range}

-- The loop's variables: the selected row with its start, and `nextChange`, 0 before it is set.
pub record Scan : Type 0 where
  pub selected : Option (ℕ × ℕ)
  pub next_change : ℕ

abbrev pub unset : Scan
unset = record { selected = none; next_change = 0 }

-- `earlier`.
pub earlier : ℕ → ℕ → ℕ
earlier candidate next_change =
    if next_change == 0 || ltb candidate next_change then candidate else next_change

-- A later start takes the selection over.
pub choose : ℕ → ℕ → Option (ℕ × ℕ) → Option (ℕ × ℕ)
choose row start_at none = some (row, start_at)
choose row start_at (some (r, selected_start_at)) =
    if ltb selected_start_at start_at then some (row, start_at) else some (r, selected_start_at)

-- The loop's body on the row's time range.
pub scan_row : ℕ → ℕ → Option (ℕ × ℕ) → Scan → Scan
scan_row now row none s = s
scan_row now row (some (start_at, end_at)) s =
    if ltb now start_at
    then record s { next_change = earlier start_at s.next_change }
    else if ltb end_at now
    then s
    else record {
      selected = choose row start_at s.selected;
      next_change = earlier (end_at + 1) s.next_change;
    }

-- The loop, from the given row on.
pub scan : ℕ → ℕ → List (Option (ℕ × ℕ)) → Scan → Scan
scan now row [] s = s
scan now row (range ∷ ranges) s = scan now (suc row) ranges (scan_row now row range s)

-- The rows of the events list projection with their keys, and the reads of the store.
pub record EventStore (F : Type 0) : Type 0 where
  pub has_cache : Bool
  pub load_projection : Bytes → Answer (List (Bytes × Fields F))
  pub get_by_id : Bytes → Bytes → Answer (Option (Fields F))

-- The answer: an event or none, each until a moment, 0 for the zero time; or an error. Behind
-- `out_of_range` the index of `projection.Keys` is out of range.
pub data Current (F : Type 0) : Type 0 where
  found : Fields F → ℕ → Current F
  missing : ℕ → Current F
  errored : Bytes → Current F
  out_of_range : Current F

module _ {F : Type 0} (runtime : Runtime F) (clock : Clock F) (store : EventStore F) where
  pub ranges_of : List (Bytes × Fields F) → List (Option (ℕ × ℕ))
  ranges_of [] = []
  ranges_of ((key, fields) ∷ rows) = resolve_event_time_range runtime clock fields ∷ ranges_of rows

  key_at : List (Bytes × Fields F) → ℕ → Option Bytes
  key_at [] row = none
  key_at ((key, fields) ∷ rows) zero = some key
  key_at ((key, fields) ∷ rows) (suc row) = key_at rows row

  read_event : Answer (Option (Fields F)) → ℕ → Current F
  read_event (failed e) until = Current.errored e
  read_event (answered none) until = Current.missing until
  read_event (answered (some event)) until = Current.found event until

  read_row : Bytes → Option Bytes → ℕ → Current F
  read_row region none until = Current.out_of_range
  read_row region (some key) until = read_event (store.get_by_id region key) until

  select_row : Bytes → List (Bytes × Fields F) → Option (ℕ × ℕ) → ℕ → Current F
  select_row region rows none until = Current.missing until
  select_row region rows (some (row, start_at)) until = read_row region (key_at rows row) until

  pub of_projection : Bytes → ℕ → Answer (List (Bytes × Fields F)) → Current F
  of_projection region now (failed e) = Current.errored e
  of_projection region now (answered rows) =
      let s = scan now 0 (ranges_of rows) unset in select_row region rows s.selected s.next_change

  -- `CurrentEventUntil` at a moment that is not the zero time.
  pub current_event_until : Bytes → ℕ → Current F
  current_event_until region now =
      let normalized = to_lower (trim_space region) in
      if not store.has_cache || length normalized == 0
      then Current.missing 0
      else of_projection normalized now (store.load_projection normalized)
