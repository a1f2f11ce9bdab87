-- ===== src/Masterdata/Projection/Columns.antt =====
-- The columns of a projection: buildProjectionColumn, projectionColumnKind and what Value reads.
use sekai_master_api.Prelude.{
  ℕ, Bool, true, false, ◌||◌, Option, none, some, List, [], ◌∷◌, map, get_elem?, if◌then◌else◌,
}
use sekai_master_api.Prelude.Text.{Bytes}
use sekai_master_api.Masterdata.Json.{ℤ, Value}

-- What is used of package math and of the conversions between float64 and int64, `json.Marshal`
-- with its error dropped, and `json.Unmarshal`.
pub record Floats (F : Type 0) : Type 0 where
  -- `f == math.Trunc(f) && math.Abs(f) < 1<<53`.
  pub is_small_integer : F → Bool
  pub to_int : F → ℤ
  pub of_int : ℤ → F
  pub zero_float : F
  pub marshal : Value F → Bytes
  pub unmarshal : Bytes → Option (Value F)

pub data ColumnKind : Type 0 where
  empty_kind int_kind float_kind string_kind bool_kind raw_kind : ColumnKind

-- `ProjectionColumn`; `missing` is `none` for nil.
pub record Column (F : Type 0) : Type 0 where
  pub kind : ColumnKind
  pub missing : Option (List Bool)
  pub ints : List ℤ
  pub float_values : List F
  pub strings : List Bytes
  pub bools : List Bool
  pub raw : List Bytes

-- A value of a row, none, or an index out of range.
pub data Cell (F : Type 0) : Type 0 where
  present : Value F → Cell F
  absent out_of_range : Cell F

unfoldable pub combine : ColumnKind → ColumnKind → ColumnKind
combine empty_kind k = k
combine int_kind int_kind = int_kind
combine int_kind float_kind = float_kind
combine float_kind int_kind = float_kind
combine float_kind float_kind = float_kind
combine string_kind string_kind = string_kind
combine bool_kind bool_kind = bool_kind
combine _ _ = raw_kind

abbrev pub is_null : {F : Type 0} → Value F → Bool
is_null Value.null = true
is_null _ = false

module _ {F : Type 0} (floats : Floats F) where
  -- The kind of one value; nil has none.
  unfoldable pub value_kind : Value F → ColumnKind
  value_kind Value.null = empty_kind
  value_kind (Value.float64 f) = if floats.is_small_integer f then int_kind else float_kind
  value_kind (Value.str s) = string_kind
  value_kind (Value.bool b) = bool_kind
  value_kind _ = raw_kind

  -- The loop of `projectionColumnKind`. The source skips nil and returns at the first `ColumnRaw`;
  -- an empty kind and a raw kind make the same of it here.
  unfoldable pub kind_from : ColumnKind → List (Value F) → ColumnKind
  unfolding combine value_kind
  kind_from kind [] = kind
  kind_from kind (v ∷ vs) = kind_from (if is_null v then kind else combine kind (value_kind v)) vs

  unfoldable pub any_null : List (Value F) → Bool
  any_null [] = false
  any_null (v ∷ vs) = is_null v || any_null vs

  abbrev pub int_of : Value F → ℤ
  int_of (Value.float64 f) = floats.to_int f
  int_of _ = ℤ.pos 0

  abbrev pub float_of : Value F → F
  float_of (Value.float64 f) = f
  float_of _ = floats.zero_float

  abbrev pub string_of : Value F → Bytes
  string_of (Value.str s) = s
  string_of _ = []

  abbrev pub bool_of : Value F → Bool
  bool_of (Value.bool b) = b
  bool_of _ = false

  abbrev pub raw_of : Value F → Bytes
  raw_of v = if is_null v then [] else floats.marshal v

  abbrev pub blank : ColumnKind → Option (List Bool) → Column F
  blank kind missing = record {
    kind = kind;
    missing = missing;
    ints = [];
    float_values = [];
    strings = [];
    bools = [];
    raw = [];
  }

  abbrev pub missing_of : List (Value F) → Option (List Bool)
  missing_of vs = if any_null vs then some (map is_null vs) else none

  abbrev pub filled : ColumnKind → List (Value F) → Column F
  filled empty_kind vs = blank empty_kind none
  filled int_kind vs = record (blank int_kind (missing_of vs)) { ints = map int_of vs }
  filled float_kind vs = record (blank float_kind (missing_of vs)) {
    float_values = map float_of vs;
  }
  filled string_kind vs = record (blank string_kind (missing_of vs)) { strings = map string_of vs }
  filled bool_kind vs = record (blank bool_kind (missing_of vs)) { bools = map bool_of vs }
  filled raw_kind vs = record (blank raw_kind (missing_of vs)) { raw = map raw_of vs }

  -- `buildProjectionColumn`.
  unfoldable pub build_projection_column : List (Value F) → Column F
  unfolding any_null kind_from
  build_projection_column vs = filled (kind_from empty_kind vs) vs

  abbrev pub of_option : Option (Value F) → Cell F
  of_option none = absent
  of_option (some v) = present v

  abbrev pub indexed : {A : Type 0} → (A → Cell F) → Option A → Cell F
  indexed read none = out_of_range
  indexed read (some a) = read a

  -- The switch of `Value`, on a row that is not missing.
  abbrev pub stored_value : Column F → ℕ → ColumnKind → Cell F
  stored_value column row empty_kind = absent
  stored_value column row int_kind =
      indexed (λ n. present (Value.float64 (floats.of_int n))) (get_elem? column.ints row)
  stored_value column row float_kind =
      indexed (λ f. present (Value.float64 f)) (get_elem? column.float_values row)
  stored_value column row string_kind =
      indexed (λ s. present (Value.str s)) (get_elem? column.strings row)
  stored_value column row bool_kind =
      indexed (λ b. present (Value.bool b)) (get_elem? column.bools row)
  stored_value column row raw_kind =
      indexed (λ s. of_option (floats.unmarshal s)) (get_elem? column.raw row)

  abbrev pub is_empty_kind : ColumnKind → Bool
  is_empty_kind empty_kind = true
  is_empty_kind _ = false

  abbrev pub unless_missing : Cell F → Option (List Bool) → ℕ → Cell F
  unless_missing cell none row = cell
  unless_missing cell (some flags) row =
      indexed (λ m. if m then absent else cell) (get_elem? flags row)

  -- What `Value` gives of a column.
  unfoldable pub column_value : Column F → ℕ → Cell F
  column_value column row =
      if is_empty_kind column.kind
      then absent
      else unless_missing (stored_value column row column.kind) column.missing row
