-- ===== src/Masterdata/Projection/Fitting.antt =====
-- The kind of a column can hold each of its values.
use sekai_master_api.Prelude.{
  ℕ, zero, suc, Bool, true, some, List, [], ◌∷◌, get_elem?, if◌then◌else◌, ◌≡◌, refl, sym, inl, inr,
  Bool-cases, some_inj, false≢true, subst,
}
use sekai_master_api.Prelude.Text.{Bytes}
use sekai_master_api.Masterdata.Json.{Value}
use sekai_master_api.Masterdata.Projection.Columns.{
  Floats, ColumnKind, empty_kind, int_kind, float_kind, string_kind, bool_kind, raw_kind, combine,
  is_null, value_kind, kind_from,
}

module _ {F : Type 0} (floats : Floats F) where
  -- A column of the kind can hold the value.
  pub data Fits : ColumnKind → Value F → Type 0 where
    null_fits : {k : ColumnKind} → Fits k Value.null
    int_fits : {f : F} → floats.is_small_integer f ≡ true → Fits int_kind (Value.float64 f)
    float_fits : {f : F} → Fits float_kind (Value.float64 f)
    string_fits : {s : Bytes} → Fits string_kind (Value.str s)
    bool_fits : {b : Bool} → Fits bool_kind (Value.bool b)
    raw_fits : {v : Value F} → Fits raw_kind v

  combine_left : (a b : ColumnKind) {v : Value F} → Fits a v → Fits (combine a b) v
  unfolding combine
  combine_left a b null_fits = null_fits
  combine_left int_kind empty_kind (int_fits h) = raw_fits
  combine_left int_kind int_kind (int_fits h) = int_fits h
  combine_left int_kind float_kind (int_fits h) = float_fits
  combine_left int_kind string_kind (int_fits h) = raw_fits
  combine_left int_kind bool_kind (int_fits h) = raw_fits
  combine_left int_kind raw_kind (int_fits h) = raw_fits
  combine_left float_kind empty_kind float_fits = raw_fits
  combine_left float_kind int_kind float_fits = float_fits
  combine_left float_kind float_kind float_fits = float_fits
  combine_left float_kind string_kind float_fits = raw_fits
  combine_left float_kind bool_kind float_fits = raw_fits
  combine_left float_kind raw_kind float_fits = raw_fits
  combine_left string_kind empty_kind string_fits = raw_fits
  combine_left string_kind int_kind string_fits = raw_fits
  combine_left string_kind float_kind string_fits = raw_fits
  combine_left string_kind string_kind string_fits = string_fits
  combine_left string_kind bool_kind string_fits = raw_fits
  combine_left string_kind raw_kind string_fits = raw_fits
  combine_left bool_kind empty_kind bool_fits = raw_fits
  combine_left bool_kind int_kind bool_fits = raw_fits
  combine_left bool_kind float_kind bool_fits = raw_fits
  combine_left bool_kind string_kind bool_fits = raw_fits
  combine_left bool_kind bool_kind bool_fits = bool_fits
  combine_left bool_kind raw_kind bool_fits = raw_fits
  combine_left raw_kind empty_kind raw_fits = raw_fits
  combine_left raw_kind int_kind raw_fits = raw_fits
  combine_left raw_kind float_kind raw_fits = raw_fits
  combine_left raw_kind string_kind raw_fits = raw_fits
  combine_left raw_kind bool_kind raw_fits = raw_fits
  combine_left raw_kind raw_kind raw_fits = raw_fits

  combine_right : (a b : ColumnKind) {v : Value F} → Fits b v → Fits (combine a b) v
  unfolding combine
  combine_right a b null_fits = null_fits
  combine_right empty_kind int_kind (int_fits h) = int_fits h
  combine_right int_kind int_kind (int_fits h) = int_fits h
  combine_right float_kind int_kind (int_fits h) = float_fits
  combine_right string_kind int_kind (int_fits h) = raw_fits
  combine_right bool_kind int_kind (int_fits h) = raw_fits
  combine_right raw_kind int_kind (int_fits h) = raw_fits
  combine_right empty_kind float_kind float_fits = float_fits
  combine_right int_kind float_kind float_fits = float_fits
  combine_right float_kind float_kind float_fits = float_fits
  combine_right string_kind float_kind float_fits = raw_fits
  combine_right bool_kind float_kind float_fits = raw_fits
  combine_right raw_kind float_kind float_fits = raw_fits
  combine_right empty_kind string_kind string_fits = string_fits
  combine_right int_kind string_kind string_fits = raw_fits
  combine_right float_kind string_kind string_fits = raw_fits
  combine_right string_kind string_kind string_fits = string_fits
  combine_right bool_kind string_kind string_fits = raw_fits
  combine_right raw_kind string_kind string_fits = raw_fits
  combine_right empty_kind bool_kind bool_fits = bool_fits
  combine_right int_kind bool_kind bool_fits = raw_fits
  combine_right float_kind bool_kind bool_fits = raw_fits
  combine_right string_kind bool_kind bool_fits = raw_fits
  combine_right bool_kind bool_kind bool_fits = bool_fits
  combine_right raw_kind bool_kind bool_fits = raw_fits
  combine_right empty_kind raw_kind raw_fits = raw_fits
  combine_right int_kind raw_kind raw_fits = raw_fits
  combine_right float_kind raw_kind raw_fits = raw_fits
  combine_right string_kind raw_kind raw_fits = raw_fits
  combine_right bool_kind raw_kind raw_fits = raw_fits
  combine_right raw_kind raw_kind raw_fits = raw_fits

  own-Fits : (v : Value F) → Fits (value_kind floats v) v
  unfolding value_kind
  own-Fits Value.null = null_fits
  own-Fits (Value.float64 f) = elim (Bool-cases (floats.is_small_integer f)) [
    | inl e ↦
        subst (λ b. Fits (if b then int_kind else float_kind) (Value.float64 f)) (sym e)
          (int_fits e)
    | inr e ↦
        subst (λ b. Fits (if b then int_kind else float_kind) (Value.float64 f)) (sym e) float_fits
  ]
  own-Fits (Value.str s) = string_fits
  own-Fits (Value.bool b) = bool_fits
  own-Fits (Value.number s) = raw_fits
  own-Fits (Value.float32 f) = raw_fits
  own-Fits (Value.int n) = raw_fits
  own-Fits (Value.uint n) = raw_fits
  own-Fits (Value.array xs) = raw_fits
  own-Fits (Value.object xs) = raw_fits

  next_kind : ColumnKind → Value F → ColumnKind
  unfolding combine value_kind
  next_kind kind v = if is_null v then kind else combine kind (value_kind floats v)

  next_keeps : (k : ColumnKind) (w : Value F) {v : Value F} → Fits k v → Fits (next_kind k w) v
  unfolding next_kind
  next_keeps k w {v} h = elim (Bool-cases (is_null w)) [
    | inl e ↦ subst (λ b. Fits (if b then k else combine k (value_kind floats w)) v) (sym e) h
    | inr e ↦
        subst (λ b. Fits (if b then k else combine k (value_kind floats w)) v) (sym e)
          (combine_left k (value_kind floats w) h)
  ]

  pub is_null-Null : (w : Value F) → is_null w ≡ true → w ≡ Value.null
  is_null-Null Value.null e = refl
  is_null-Null (Value.float64 f) e = absurd (false≢true e)
  is_null-Null (Value.str s) e = absurd (false≢true e)
  is_null-Null (Value.bool b) e = absurd (false≢true e)
  is_null-Null (Value.number s) e = absurd (false≢true e)
  is_null-Null (Value.float32 f) e = absurd (false≢true e)
  is_null-Null (Value.int n) e = absurd (false≢true e)
  is_null-Null (Value.uint n) e = absurd (false≢true e)
  is_null-Null (Value.array xs) e = absurd (false≢true e)
  is_null-Null (Value.object xs) e = absurd (false≢true e)

  next-Fits : (k : ColumnKind) (w : Value F) → Fits (next_kind k w) w
  unfolding next_kind
  next-Fits k w = elim (Bool-cases (is_null w)) [
    | inl e ↦
        subst (λ b. Fits (if b then k else combine k (value_kind floats w)) w) (sym e)
          (subst (Fits k) (sym (is_null-Null w e)) null_fits)
    | inr e ↦
        subst (λ b. Fits (if b then k else combine k (value_kind floats w)) w) (sym e)
          (combine_right k (value_kind floats w) (own-Fits w))
  ]

  kind_from-keeps :
      (k : ColumnKind) (vs : List (Value F)) {v : Value F}
      → Fits k v
      → Fits (kind_from floats k vs) v
  unfolding kind_from next_kind
  kind_from-keeps k [] h = h
  kind_from-keeps k (w ∷ vs) h = kind_from-keeps (next_kind k w) vs (next_keeps k w h)

  -- The kind of a column can hold each of its values.
  pub kind_from-Fits :
      (k : ColumnKind) (vs : List (Value F)) (row : ℕ) {v : Value F}
      → get_elem? vs row ≡ some v
      → Fits (kind_from floats k vs) v
  unfolding kind_from next_kind
  kind_from-Fits k [] row e = absurd cc
  kind_from-Fits k (w ∷ vs) zero e =
      kind_from-keeps (next_kind k w) vs
        (subst (Fits (next_kind k w)) (some_inj _ _ e) (next-Fits k w))
  kind_from-Fits k (w ∷ vs) (suc row) e = kind_from-Fits (next_kind k w) vs row e
