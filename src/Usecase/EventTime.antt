-- ===== src/Usecase/EventTime.antt =====
-- `parseTimestamp`, `normalizeEpochTimestamp` and `resolveEventTimeRange` of
-- master_data_sync_usecase.go. A timestamp is a count of milliseconds.
use sekai_master_api.Prelude.{
  ℕ, ◌+◌, ◌-◌, ◌*◌, ◌/◌, ◌^◌, Option, none, some, List, [], ◌∷◌, length, ltb, leb, ◌==◌,
  if◌then◌else◌, ◌≡◌, refl,
}
use sekai_master_api.Prelude.Text.{Bytes, codes, trim_space}
use sekai_master_api.Masterdata.Json.{ℤ, Value, Fields, Runtime, get, parse_int64}

-- The conversion `int64(f)` of a float, and `time.Parse(layout, text)` in Unix milliseconds.
pub record Clock (F : Type 0) : Type 0 where
  pub to_int64 : F → ℤ
  pub parse_time : Bytes → Bytes → Option ℤ

-- `-n`.
minus : ℕ → ℤ
minus n = if n == 0 then ℤ.pos 0 else ℤ.negsuc (n - 1)

-- The switch on the absolute value.
scaled : ℕ → ℕ
scaled n =
    if ltb n 100000000000
    then n * 1000
    else if leb 100000000000000000 n
    then n / 1000000
    else if leb 100000000000000 n
    then n / 1000
    else n

-- `normalizeEpochTimestamp`. The least int64 is its own negation, below every bound, and times 1000
-- it wraps around to 0.
unfoldable pub normalize_epoch_timestamp : ℤ → ℤ
unfolding scaled minus
normalize_epoch_timestamp (ℤ.pos n) = ℤ.pos (scaled n)
normalize_epoch_timestamp (ℤ.negsuc n) = if n + 1 == 2 ^ 63 then ℤ.pos 0 else minus (scaled (n + 1))

-- `int64(u)` of a uint64.
wrapped : ℕ → ℤ
wrapped u = if ltb u (2 ^ 63) then ℤ.pos u else ℤ.negsuc (2 ^ 64 - 1 - u)

layouts : List Bytes
layouts =
    codes "2006-01-02T15:04:05.999999999Z07:00"
    ∷ (codes "2006-01-02T15:04:05Z07:00"
        ∷ (codes "2006-01-02 15:04:05"
            ∷ (codes "2006-01-02 15:04:05Z07:00" ∷ (codes "2006-01-02 15:04:05 -0700" ∷ []))))

module _ {F : Type 0} (runtime : Runtime F) (clock : Clock F) where
  -- The first layout that parses.
  first_time : List Bytes → Bytes → Option ℤ
  first_time [] text = none
  first_time (layout ∷ rest) text = elim (clock.parse_time layout text) [
    | none ↦ first_time rest text
    | some millis ↦ some millis
  ]

  unfoldable pub normalized : Option ℤ → Option ℤ
  unfolding normalize_epoch_timestamp
  normalized none = none
  normalized (some n) = some (normalize_epoch_timestamp n)

  text_time : Bytes → Option F → Option ℤ
  unfolding first_time layouts normalized
  text_time text (some f) = normalized (some (clock.to_int64 f))
  text_time text none = first_time layouts text

  unfoldable pub int_or_time : Bytes → Option ℤ → Option ℤ
  unfolding text_time normalized
  int_or_time text (some n) = normalized (some n)
  int_or_time text none = text_time text (runtime.parse_float text)

  -- `parseTimestamp`. It refuses integer types narrower than it names, which decoding never makes
  -- and which the model does not tell apart.
  unfoldable pub parse_timestamp : Value F → Option ℤ
  unfolding normalized wrapped int_or_time
  parse_timestamp (Value.int n) = normalized (some n)
  parse_timestamp (Value.uint u) = normalized (some (wrapped u))
  parse_timestamp (Value.float64 f) = normalized (some (clock.to_int64 f))
  parse_timestamp (Value.float32 f) = normalized (some (clock.to_int64 f))
  parse_timestamp (Value.number s) = normalized (parse_int64 s)
  parse_timestamp (Value.str s) =
      let trimmed = trim_space s in
      if length trimmed == 0 then none else int_or_time trimmed (parse_int64 trimmed)
  parse_timestamp Value.null = none
  parse_timestamp (Value.bool b) = none
  parse_timestamp (Value.array vs) = none
  parse_timestamp (Value.object fs) = none

  positive : Option ℤ → Option ℕ
  positive none = none
  positive (some (ℤ.pos n)) = if n == 0 then none else some n
  positive (some (ℤ.negsuc n)) = none

  timestamp_of : Option (Value F) → Option ℕ
  unfolding positive parse_timestamp
  timestamp_of none = none
  timestamp_of (some v) = positive (parse_timestamp v)

  -- `selectPositiveTimestamp`: the first of the keys with a positive timestamp.
  unfoldable pub select_positive_timestamp : List Bytes → Fields F → Option ℕ
  unfolding timestamp_of get
  select_positive_timestamp [] fields = none
  select_positive_timestamp (key ∷ keys) fields = elim (timestamp_of (get key fields)) [
    | none ↦ select_positive_timestamp keys fields
    | some timestamp ↦ some timestamp
  ]

  ordered : Option ℕ → Option ℕ → Option (ℕ × ℕ)
  ordered (some start_at) (some end_at) =
      if ltb end_at start_at then none else some (start_at, end_at)
  ordered none _ = none
  ordered (some start_at) none = none

  -- `resolveEventTimeRange`; a nil record has no fields.
  unfoldable pub resolve_event_time_range : Fields F → Option (ℕ × ℕ)
  unfolding ordered select_positive_timestamp
  resolve_event_time_range fields =
      ordered (select_positive_timestamp (codes "startAt" ∷ []) fields)
        (select_positive_timestamp (codes "closedAt" ∷ []) fields)

normalize_test : normalize_epoch_timestamp (ℤ.pos 1700000000) ≡ ℤ.pos 1700000000000
unfolding normalize_epoch_timestamp
normalize_test = refl

normalize_nanos : normalize_epoch_timestamp (ℤ.negsuc 1700000000000000000) ≡ ℤ.negsuc 1699999999999
unfolding normalize_epoch_timestamp
normalize_nanos = refl
