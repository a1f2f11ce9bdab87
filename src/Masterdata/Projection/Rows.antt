-- ===== src/Masterdata/Projection/Rows.antt =====
-- The rows of a projection built from records.
use sekai_master_api.Prelude.{
  ℕ, true, Option, none, some, List, [], ◌∷◌, ◌++◌, map, append_assoc, append-nil, get_elem?,
  get_elem?-map, some_inj, if◌then◌else◌, ◌≡◌, refl, sym, ◌∙◌, ap, inl, inr, arith, Bool-cases,
}
use sekai_master_api.Prelude.Members.{In}
use sekai_master_api.Prelude.Text.{Bytes, same, same_refl, same→eq}
use sekai_master_api.Masterdata.Json.{Value, Fields}
use sekai_master_api.Masterdata.Projection.Table.{projection_fields}
use sekai_master_api.Masterdata.Projection.{
  field_value, Values, empty_values, add_values, ProjectionBuilder, new_projection_builder,
  add_record, Projection, build_columns, build, add_records, none_without, build_projection,
  find_column, cell_of, projection_value,
}
use sekai_master_api.Masterdata.Projection.Columns.{Floats, build_projection_column}
use sekai_master_api.Masterdata.Projection.RoundTrip.{as_cell, column_value-build}

module _ {F : Type 0} (floats : Floats F) where
  find_values : Bytes → Values floats → Option (List (Value F))
  find_values field [] = none
  find_values field ((name, values) ∷ rest) =
      let others = find_values field rest in if same name field then some values else others

  -- The records that are not nil, the rows of the projection.
  abbrev pub rows_of : List (Bytes × Option (Fields F)) → List (Bytes × Fields F)
  rows_of [] = []
  rows_of ((key, none) ∷ rows) = rows_of rows
  rows_of ((key, some fields) ∷ rows) = (key, fields) ∷ rows_of rows

  abbrev column_of : Bytes → List (Bytes × Option (Fields F)) → List (Value F)
  column_of field rows = map (λ (r : Bytes × Fields F). field_value floats field r.1) (rows_of rows)

  find_values-empty :
      (field : Bytes) (fields : List Bytes)
      → In field fields
      → find_values field (empty_values floats fields) ≡ some []
  unfolding find_values empty_values
  find_values-empty field [] m = absurd m
  find_values-empty field (f ∷ fields) (inl e) = rw (ap (same f) e ∙ same_refl f) refl
  find_values-empty field (f ∷ fields) (inr m) = ground (arith, find_values-empty field fields m)

  find_values-add :
      (field : Bytes) (record_fields : Fields F) (values : Values floats) {vs : List (Value F)}
      → find_values field values ≡ some vs
      → find_values field (add_values floats record_fields values)
        ≡ some (vs ++ field_value floats field record_fields ∷ [])
  unfolding find_values add_values
  find_values-add field r [] e = absurd cc
  find_values-add field r ((name, values) ∷ rest) {vs} e = elim (Bool-cases (same name field)) [
    | inl h ↦
        let found : values ≡ vs = some_inj _ _ (sym (rw h refl) ∙ e) in
        rw (h, found) (ap (λ n. some (vs ++ field_value floats n r ∷ [])) (same→eq name field h))
    | inr h ↦ rw h (find_values-add field r rest (sym (rw h refl) ∙ e))
  ]

  find_values-records :
      (field : Bytes) (rows : List (Bytes × Option (Fields F))) (builder : ProjectionBuilder floats)
      {vs : List (Value F)}
      → find_values field builder.values ≡ some vs
      → find_values field (add_records floats rows builder).values
        ≡ some (vs ++ column_of field rows)
  unfolding add_records add_record
  find_values-records field [] builder {vs} e = e ∙ ap some (sym (append-nil vs))
  find_values-records field ((key, none) ∷ rows) builder e =
      find_values-records field rows builder e
  find_values-records field ((key, some fields) ∷ rows) builder {vs} e =
      find_values-records field rows (add_record floats (key, fields) builder)
        (find_values-add field fields builder.values e)
      ∙ ap some (append_assoc vs _ _)

  find_column-build :
      (field : Bytes) (values : Values floats) {vs : List (Value F)}
      → find_values field values ≡ some vs
      → find_column floats field (build_columns floats values)
        ≡ some (build_projection_column floats vs)
  unfolding find_values find_column build_columns
  find_column-build field [] e = absurd cc
  find_column-build field ((name, values) ∷ rest) e = elim (Bool-cases (same name field)) [
    | inl h ↦
        rw h
          (ap (λ vs. some (build_projection_column floats vs)) (some_inj _ _ (sym (rw h refl) ∙ e)))
    | inr h ↦ rw h (find_column-build field rest (sym (rw h refl) ∙ e))
  ]

  none_without-fields :
      (field : Bytes) (fields : List Bytes) (projection : Projection floats)
      → In field fields
      → none_without floats fields projection ≡ projection
  unfolding none_without
  none_without-fields field [] projection m = absurd m
  none_without-fields field (f ∷ fields) projection m = refl

  -- A projection gives back the fields of its records that are not nil, row by row: the value of a
  -- field of the entity's projection, and nothing where the record lacks the field or holds null.
  -- A float64 that is a small integer survives the conversions to int64 and back, and the JSON text
  -- of the value decodes to it.
  pub projection_value-build :
      (exact : (f : F) → floats.is_small_integer f ≡ true → floats.of_int (floats.to_int f) ≡ f)
      (entity : Bytes) (rows : List (Bytes × Option (Fields F))) (field : Bytes) (row : ℕ)
      (key : Bytes) (fields : Fields F)
      → In field (projection_fields entity)
      → get_elem? (rows_of rows) row ≡ some (key, fields)
      → floats.unmarshal (floats.marshal (field_value floats field fields))
        ≡ some (field_value floats field fields)
      → projection_value floats (build_projection floats entity rows) field row
        ≡ as_cell floats (field_value floats field fields)
  unfolding build_projection build projection_value
  projection_value-build exact entity rows field row key fields m at u =
      let started : find_values field (empty_values floats (projection_fields entity)) ≡ some [] =
        find_values-empty field (projection_fields entity) m in
      let filled : find_values field
            (add_records floats rows (new_projection_builder floats entity)).values
          ≡ some (column_of field rows) =
        find_values-records field rows (new_projection_builder floats entity) started in
      ap (λ (p : Projection floats). cell_of floats (find_column floats field p.columns) row)
        (none_without-fields field (projection_fields entity) _ m)
      ∙ ap (λ c. cell_of floats c row) (find_column-build field _ filled)
      ∙ column_value-build floats exact (column_of field rows) row _ u (
          get_elem?-map (λ (r : Bytes × Fields F). field_value floats field r.1) (rows_of rows) row
            at)
