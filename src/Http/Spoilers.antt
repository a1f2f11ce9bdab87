-- ===== src/Http/Spoilers.antt =====
-- internal/transport/http/handlers/shared/spoiler_helper.go, and the hints to the response cache of
-- internal/transport/http/cachehint/cachehint.go. `now` is a count of milliseconds since 1970.
pub mod Reveal
pub mod Tight
pub mod Steady
mod Examples
use sekai_master_api.Prelude.{
  ℕ, Bool, true, false, Option, none, some, List, [], ◌∷◌, length, ltb, leb, ◌==◌, ◌&&◌, ◌||◌, ◌^◌,
  if◌then◌else◌,
}
use sekai_master_api.Prelude.Text.{Bytes, codes, trim_space}
use sekai_master_api.Masterdata.Json.{ℤ, Value, Fields, Runtime, get, parse_int64}
use sekai_master_api.Usecase.EventTime.{Clock, normalized, int_or_time}

pub spoiler_timestamp_keys : List Bytes
spoiler_timestamp_keys =
    codes "releaseAt" ∷ codes "releastAt" ∷ codes "publishedAt" ∷ codes "startAt" ∷ []

-- A `Hint`: the earliest moment reported, if any.
abbrev pub Hint : Type 0
Hint = Option ℕ

-- `ValidUntil`, of a moment that is not zero.
unfoldable pub valid_until : ℕ → Hint → Hint
valid_until t none = some t
valid_until t (some until) = if ltb t until then some t else some until

module _ {F : Type 0} (runtime : Runtime F) (clock : Clock F) where
  -- `ParseTimestampMillis`. The numbers and texts are read as `parseTimestamp` of the use case reads
  -- them. `Value.uint` stands for both uint and uint64, of which the source refuses only a uint64
  -- above the greatest int64; a uint above it wraps around to a negative moment there, which is as
  -- little ahead of `now` as one that is refused.
  unfoldable pub parse_timestamp_millis : Value F → Option ℤ
  unfolding normalized int_or_time trim_space
  parse_timestamp_millis (Value.int n) = normalized runtime clock (some n)
  parse_timestamp_millis (Value.uint u) =
      if ltb u (2 ^ 63) then normalized runtime clock (some (ℤ.pos u)) else none
  parse_timestamp_millis (Value.float64 f) = normalized runtime clock (some (clock.to_int64 f))
  parse_timestamp_millis (Value.float32 f) = normalized runtime clock (some (clock.to_int64 f))
  parse_timestamp_millis (Value.number s) = normalized runtime clock (parse_int64 s)
  parse_timestamp_millis (Value.str s) =
      let trimmed = trim_space s in
      if length trimmed == 0 then none else int_or_time runtime clock trimmed (parse_int64 trimmed)
  parse_timestamp_millis Value.null = none
  parse_timestamp_millis (Value.bool b) = none
  parse_timestamp_millis (Value.array vs) = none
  parse_timestamp_millis (Value.object fs) = none

  -- A timestamp is a natural number if it is ahead of a `now`; 0 stands for all that never are.
  ahead : Option ℤ → ℕ
  ahead (some (ℤ.pos n)) = n
  ahead (some (ℤ.negsuc n)) = 0
  ahead none = 0

  timestamp_of : Option (Value F) → ℕ
  unfolding ahead parse_timestamp_millis
  timestamp_of none = 0
  timestamp_of (some v) = ahead (parse_timestamp_millis v)

  unfoldable pub any_ahead : List Bytes → Fields F → ℕ → Bool
  unfolding timestamp_of get
  any_ahead [] item now = false
  any_ahead (key ∷ keys) item now = ltb now (timestamp_of (get key item)) || any_ahead keys item now

  -- `IsSpoilerItem`; a nil item has no fields.
  unfoldable pub is_spoiler_item : Fields F → ℕ → Bool
  unfolding any_ahead spoiler_timestamp_keys
  is_spoiler_item item now = any_ahead spoiler_timestamp_keys item now

  -- `FilterSpoilerItems`.
  unfoldable pub filter_spoiler_items : List (Fields F) → ℕ → List (Fields F)
  unfolding is_spoiler_item
  filter_spoiler_items [] now = []
  filter_spoiler_items (item ∷ items) now =
      let rest = filter_spoiler_items items now in
      if is_spoiler_item item now then rest else item ∷ rest

  unfoldable pub latest_ahead : List Bytes → Fields F → ℕ → ℕ → ℕ
  unfolding timestamp_of get
  latest_ahead [] item now latest = latest
  latest_ahead (key ∷ keys) item now latest =
      let timestamp = timestamp_of (get key item) in
      latest_ahead keys item now
        (if ltb now timestamp && ltb latest timestamp then timestamp else latest)

  -- `spoilerRevealAt`.
  unfoldable pub spoiler_reveal_at : Fields F → ℕ → Option ℕ
  unfolding is_spoiler_item latest_ahead spoiler_timestamp_keys
  spoiler_reveal_at item now =
      let latest = latest_ahead spoiler_timestamp_keys item now 0 in
      if is_spoiler_item item now then (if ltb 0 latest then some latest else none) else none

  sooner : Option ℕ → ℕ → ℕ
  sooner none earliest = earliest
  sooner (some reveal_at) earliest =
      if earliest == 0 || ltb reveal_at earliest then reveal_at else earliest

  unfoldable pub earliest_reveal : List (Fields F) → ℕ → ℕ → ℕ
  unfolding sooner spoiler_reveal_at
  earliest_reveal [] now earliest = earliest
  earliest_reveal (item ∷ items) now earliest =
      earliest_reveal items now (sooner (spoiler_reveal_at item now) earliest)

  -- `FilterSpoilerItemsContext`, with the hint of its context before and after.
  unfoldable pub filter_spoiler_items_context : List (Fields F) → ℕ → Hint → List (Fields F) × Hint
  unfolding filter_spoiler_items earliest_reveal valid_until
  filter_spoiler_items_context items now hint =
      let filtered = filter_spoiler_items items now in
      let earliest = earliest_reveal items now 0 in
      if length filtered == length items
      then (filtered, hint)
      else if ltb 0 earliest
      then (filtered, valid_until earliest hint)
      else (filtered, hint)
