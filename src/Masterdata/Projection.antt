-- ===== src/Masterdata/Projection.antt =====
-- internal/domain/masterdata/projection.go: list projections, stored by column.
pub mod Table
pub mod Columns
pub mod Fitting
pub mod RoundTrip
pub mod Rows
mod Examples
use sekai_master_api.Prelude.{
  ℕ, Bool, true, false, Option, none, some, List, [], ◌∷◌, ◌++◌, if◌then◌else◌,
}
use sekai_master_api.Prelude.Text.{Bytes, codes, same}
use sekai_master_api.Prelude.Split.{join}
use sekai_master_api.Masterdata.Json.{Value, Fields, get}
use sekai_master_api.Masterdata.RecordKey.{normalize_entity}
use sekai_master_api.Masterdata.Projection.Columns.{
  Floats, Cell, absent, Column, build_projection_column, column_value,
}
use sekai_master_api.Masterdata.Projection.Table.{projection_fields}

module _ {F : Type 0} (floats : Floats F) where
  -- `record[field]`: nil for a field that the record lacks.
  abbrev pub or_null : Option (Value F) → Value F
  or_null none = Value.null
  or_null (some v) = v

  abbrev pub field_value : Bytes → Fields F → Value F
  field_value field fields = or_null (get field fields)

  -- `builder.values`, with the columns in the order of the fields.
  abbrev pub Values : Type 0
  Values = List (Bytes × List (Value F))

  unfoldable pub empty_values : List Bytes → Values
  empty_values [] = []
  empty_values (field ∷ fields) = (field, []) ∷ empty_values fields

  -- The loop of `Add`.
  unfoldable pub add_values : Fields F → Values → Values
  add_values fields [] = []
  add_values fields ((field, values) ∷ rest) =
      (field, values ++ field_value field fields ∷ []) ∷ add_values fields rest

  pub record ProjectionBuilder : Type 0 where
    pub keys : List Bytes
    pub values : Values

  abbrev pub new_projection_builder : Bytes → ProjectionBuilder
  new_projection_builder entity = record {
    keys = [];
    values = empty_values (projection_fields entity);
  }

  -- `Add`.
  unfoldable pub add_record : Bytes × Fields F → ProjectionBuilder → ProjectionBuilder
  add_record (key, fields) builder = record {
    keys = builder.keys ++ key ∷ [];
    values = add_values fields builder.values;
  }

  pub record Projection : Type 0 where
    pub keys : List Bytes
    pub columns : List (Bytes × Column F)

  unfoldable pub build_columns : Values → List (Bytes × Column F)
  build_columns [] = []
  build_columns ((field, values) ∷ rest) =
      (field, build_projection_column floats values) ∷ build_columns rest

  -- `Build`.
  unfoldable pub build : ProjectionBuilder → Projection
  build builder = record { keys = builder.keys; columns = build_columns builder.values }

  unfoldable pub add_records :
      List (Bytes × Option (Fields F)) → ProjectionBuilder → ProjectionBuilder
  add_records [] builder = builder
  add_records ((key, none) ∷ rows) builder = add_records rows builder
  add_records ((key, some fields) ∷ rows) builder =
      add_records rows (add_record (key, fields) builder)

  unfoldable pub none_without : List Bytes → Projection → Projection
  none_without [] projection = record { keys = []; columns = [] }
  none_without (field ∷ fields) projection = projection

  -- `BuildProjection`, of each key with its record; `none` is a nil record. An entity without a
  -- projection has no columns and no keys.
  unfoldable pub build_projection : Bytes → List (Bytes × Option (Fields F)) → Projection
  build_projection entity rows =
      none_without (projection_fields entity)
        (build (add_records rows (new_projection_builder entity)))

  -- `projection.Columns[field]`.
  unfoldable pub find_column : Bytes → List (Bytes × Column F) → Option (Column F)
  find_column field [] = none
  find_column field ((name, column) ∷ rest) =
      let others = find_column field rest in if same name field then some column else others

  abbrev pub cell_of : Option (Column F) → ℕ → Cell F
  cell_of none row = absent
  cell_of (some column) row = column_value floats column row

  -- `Value`.
  unfoldable pub projection_value : Projection → Bytes → ℕ → Cell F
  projection_value projection field row = cell_of (find_column field projection.columns) row
