-- ===== src/Masterdata/Projection/Examples.antt =====
-- A projection of two tips.
use sekai_master_api.Prelude.{true, Option, none, some, List, [], ◌∷◌, ◌≡◌, refl, inl, inr}
use sekai_master_api.Prelude.Text.{Bytes, codes, same, to_lower, trim_space}
use sekai_master_api.Masterdata.Json.{ℤ, Value, Fields, get}
use sekai_master_api.Masterdata.Projection.Table.{projection_fields}
use sekai_master_api.Masterdata.Projection.{build_projection, projection_value}
use sekai_master_api.Masterdata.Projection.Columns.{Floats, present}
use sekai_master_api.Masterdata.Projection.RoundTrip.{as_cell}
use sekai_master_api.Masterdata.Projection.Rows.{projection_value-build}

abbrev text_of : Value ℤ → Bytes
text_of (Value.str s) = s
text_of _ = []

-- Whole numbers only, and the JSON of strings without quotes.
abbrev floats : Floats ℤ
floats = record {
  is_small_integer = λ f. true;
  to_int = λ f. f;
  of_int = λ n. n;
  zero_float = ℤ.pos 0;
  marshal = text_of;
  unmarshal = λ s. some (Value.str s);
}

abbrev first_tip : Fields ℤ
first_tip =
    Fields.field (codes "id") (Value.float64 (ℤ.pos 1))
      (Fields.field (codes "title") (Value.str (codes "a")) Fields.end)

abbrev second_tip : Fields ℤ
second_tip =
    Fields.field (codes "title") (Value.str (codes "b"))
      (Fields.field (codes "fromUserRank") (Value.float64 (ℤ.pos 7)) Fields.end)

abbrev tips : List (Bytes × Option (Fields ℤ))
tips = (codes "1", some first_tip) ∷ (codes "x", none) ∷ (codes "2", some second_tip) ∷ []

projection_value-build_example :
    projection_value floats (build_projection floats (codes " Tips") tips) (codes "title") 1
    ≡ present (Value.str (codes "b"))
unfolding projection_fields same to_lower trim_space get build_projection projection_value as_cell
projection_value-build_example =
    projection_value-build floats (λ f h. refl) (codes " Tips") tips (codes "title") 1 (codes "2")
      second_tip (inr (inl refl)) refl refl
