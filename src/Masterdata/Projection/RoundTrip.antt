-- ===== src/Masterdata/Projection/RoundTrip.antt =====
-- A projection gives back what its records hold.
use sekai_master_api.Prelude.{
  ℕ, zero, suc, true, false, some, List, [], ◌∷◌, get_elem?, get_elem?-map, if◌then◌else◌, ◌≡◌,
  refl, sym, ◌∙◌, inl, inr, arith, Bool-cases, some_inj, false≢true,
}
use sekai_master_api.Masterdata.Json.{Value}
use sekai_master_api.Masterdata.Projection.Columns.{
  Floats, ColumnKind, empty_kind, int_kind, float_kind, string_kind, bool_kind, raw_kind, Cell,
  present, absent, is_null, kind_from, any_null, int_of, float_of, string_of, bool_of, raw_of,
  missing_of, filled, build_projection_column, stored_value, unless_missing, column_value,
}
use sekai_master_api.Masterdata.Projection.Fitting.{
  Fits, null_fits, int_fits, float_fits, string_fits, bool_fits, raw_fits, kind_from-Fits,
}

module _ {F : Type 0} (floats : Floats F) where
  unfoldable pub as_cell : Value F → Cell F
  as_cell v = if is_null v then absent else present v

  any_null-None :
      (vs : List (Value F)) (row : ℕ) {v : Value F}
      → get_elem? vs row ≡ some v
      → any_null floats vs ≡ false
      → is_null v ≡ false
  unfolding any_null
  any_null-None [] row e h = absurd cc
  any_null-None (w ∷ vs) zero e h = ground (arith, some_inj _ _ e)
  any_null-None (w ∷ vs) (suc row) e h = any_null-None vs row e (ground arith)

  flagged :
      (c : Cell F) (v : Value F)
      → (is_null v ≡ false → c ≡ present v)
      → (if is_null v then absent else c) ≡ as_cell v
  unfolding as_cell
  flagged c v h = elim (Bool-cases (is_null v)) [ inl e ↦ rw e refl | inr e ↦ rw e (h e) ]

  unless_missing-lem :
      (c : Cell F) (vs : List (Value F)) (row : ℕ) (v : Value F)
      → get_elem? vs row ≡ some v
      → (is_null v ≡ false → c ≡ present v)
      → unless_missing floats c (missing_of floats vs) row ≡ as_cell v
  unfolding as_cell
  unless_missing-lem c vs row v e h = elim (Bool-cases (any_null floats vs)) [
    | inl some_null ↦ rw (some_null, get_elem?-map is_null vs row e) (flagged c v h)
    | inr no_null ↦
        let here : is_null v ≡ false = any_null-None vs row e no_null in
        rw no_null (h here ∙ sym (rw here refl))
  ]

  empty_kind-Fits : {v : Value F} → Fits floats empty_kind v → absent ≡ as_cell v
  unfolding as_cell
  empty_kind-Fits null_fits = refl

  -- What is stored of a value that the column's kind can hold.
  module _
      (exact : (f : F)
        → floats.is_small_integer f ≡ true
        → floats.of_int (floats.to_int f) ≡ f) where
    stored_value-lem :
        (k : ColumnKind) (vs : List (Value F)) (row : ℕ) (v : Value F)
        → floats.unmarshal (floats.marshal v) ≡ some v
        → get_elem? vs row ≡ some v
        → Fits floats k v
        → is_null v ≡ false
        → stored_value floats (filled floats k vs) row k ≡ present v
    stored_value-lem k vs row Value.null u e null_fits h = absurd (false≢true (sym h))
    stored_value-lem int_kind vs row (Value.float64 f) u e (int_fits g) h =
        rw (get_elem?-map (int_of floats) vs row e, exact f g) refl
    stored_value-lem float_kind vs row (Value.float64 f) u e float_fits h =
        rw (get_elem?-map (float_of floats) vs row e) refl
    stored_value-lem string_kind vs row (Value.str f) u e string_fits h =
        rw (get_elem?-map (string_of floats) vs row e) refl
    stored_value-lem bool_kind vs row (Value.bool f) u e bool_fits h =
        rw (get_elem?-map (bool_of floats) vs row e) refl
    stored_value-lem raw_kind vs row v u e raw_fits h =
        rw (get_elem?-map (raw_of floats) vs row e, h, u) refl

    column_value-filled :
        (k : ColumnKind) (vs : List (Value F)) (row : ℕ) (v : Value F)
        → floats.unmarshal (floats.marshal v) ≡ some v
        → get_elem? vs row ≡ some v
        → Fits floats k v
        → column_value floats (filled floats k vs) row ≡ as_cell v
    unfolding column_value as_cell
    column_value-filled empty_kind vs row v u e fits = empty_kind-Fits fits
    column_value-filled int_kind vs row v u e fits =
        unless_missing-lem _ vs row v e (stored_value-lem int_kind vs row v u e fits)
    column_value-filled float_kind vs row v u e fits =
        unless_missing-lem _ vs row v e (stored_value-lem float_kind vs row v u e fits)
    column_value-filled string_kind vs row v u e fits =
        unless_missing-lem _ vs row v e (stored_value-lem string_kind vs row v u e fits)
    column_value-filled bool_kind vs row v u e fits =
        unless_missing-lem _ vs row v e (stored_value-lem bool_kind vs row v u e fits)
    column_value-filled raw_kind vs row v u e fits =
        unless_missing-lem _ vs row v e (stored_value-lem raw_kind vs row v u e fits)

    -- A column gives back the value of each of its rows, and nothing for null, when a float64 that
    -- is a small integer survives the conversions to int64 and back and when the value's JSON text
    -- decodes to it.
    pub column_value-build :
        (vs : List (Value F)) (row : ℕ) (v : Value F)
        → floats.unmarshal (floats.marshal v) ≡ some v
        → get_elem? vs row ≡ some v
        → column_value floats (build_projection_column floats vs) row ≡ as_cell v
    unfolding build_projection_column
    column_value-build vs row v u e =
        column_value-filled (kind_from floats empty_kind vs) vs row v u e
          (kind_from-Fits floats empty_kind vs row e)
