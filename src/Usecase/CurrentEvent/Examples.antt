-- ===== src/Usecase/CurrentEvent/Examples.antt =====
-- An event list of two events.
use sekai_master_api.Prelude.{ℕ, true, none, some, [], ◌∷◌, ◌≡◌, refl, inr, arith}
use sekai_master_api.Prelude.Text.{codes, to_lower, trim_space, same}
use sekai_master_api.Prelude.Decimal.{value}
use sekai_master_api.Masterdata.Json.{ℤ, Value, Fields, Runtime, parse_int64, parse_uint64}
use sekai_master_api.Usecase.World.{answered}
use sekai_master_api.Usecase.EventTime.{Clock, resolve_event_time_range}
use sekai_master_api.Usecase.CurrentEvent.{
  EventStore, current_event_until, of_projection, select_row, key_at, read_row, read_event, scan,
  scan_row, earlier, choose, ranges_of,
}
use sekai_master_api.Usecase.CurrentEvent.Until.{until_of, current_event_until_steady}

abbrev go : Runtime ℕ
go = record {
  finite = λ f. true;
  format64 = λ f. [];
  format32 = λ f. [];
  parse_float = λ s. none;
  print = λ v. [];
  sha256_hex = λ b. [];
}

abbrev clock : Clock ℕ
clock = record { to_int64 = λ f. ℤ.pos f; parse_time = λ layout text. none }

-- From 1,700,000,000 to 1,700,000,100 seconds.
abbrev event : Fields ℕ
event =
    Fields.field (codes "startAt") (Value.number (codes "1700000000"))
      (Fields.field (codes "closedAt") (Value.number (codes "1700000100")) Fields.end)

abbrev store : EventStore ℕ
store = record {
  has_cache = true;
  load_projection = λ region. answered ((codes "7", event) ∷ []);
  get_by_id = λ region key. answered (some event);
}

abbrev now : ℕ
now = 1700000000000

abbrev until : ℕ
until = 1700000100001

ends : until_of (current_event_until go clock store (codes "jp") now) ≡ some until
unfolding current_event_until of_projection select_row key_at read_row read_event scan scan_row
    earlier choose ranges_of resolve_event_time_range to_lower trim_space same parse_int64
    parse_uint64 value
ends = refl

current_event_until_steady_example :
    current_event_until go clock store (codes "jp") 1700000100000
    ≡ current_event_until go clock store (codes "jp") now
current_event_until_steady_example =
    current_event_until_steady go clock store (codes "jp") now 1700000100000 until (omega arith)
      ends (inr (omega arith))
