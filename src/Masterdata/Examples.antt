-- ===== src/Masterdata/Examples.antt =====
-- Records, keys and indexes at concrete values.
use sekai_master_api.Prelude.{
  ℕ, true, false, none, some, List, [], ◌∷◌, ◌++◌, ◌≡◌, refl, ◌↔◌, ltb, length,
}
use sekai_master_api.Prelude.Text.{Bytes, codes, less, same, to_lower, trim_space}
use sekai_master_api.Prelude.Decimal.{value, itoa}
use sekai_master_api.Prelude.Framing.{frames}
use sekai_master_api.Prelude.Split.{split, cut_before}
use sekai_master_api.Prelude.Members.{In}
use sekai_master_api.Masterdata.Json.{
  ℤ, Value, Fields, Runtime, get, parse_int64, parse_uint64, format_int,
}
use sekai_master_api.Masterdata.RecordKey.{
  composite_key_prefix, normalize_entity, composite_key_fields, encode_composite_key, key_parts,
  uses_composite_key, composite_record_key, canonical_key_part,
}
use sekai_master_api.Masterdata.RecordKey.Composite.{
  interleave, encode_composite_key_injective, composite_record_key_total,
  composite_record_key_injective,
}
use sekai_master_api.Masterdata.RecordKey.SortKey.{is_numeric_key, block_sort_key}
use sekai_master_api.Masterdata.RecordKey.SortKey.Order.{
  block_sort_key_numeric, numeric_before_other,
}
use sekai_master_api.Masterdata.RecordKey.SortKey.Injective.{block_sort_key_injective}
use sekai_master_api.Masterdata.Index.Table.{
  entity_indexes, index_version, index_names_from_version,
}
use sekai_master_api.Masterdata.Index.Table.Names.{index_names-version}
use sekai_master_api.Masterdata.Index.Keys.{
  distinct, index_keys, index_lookup_key, parse_element_index,
}
use sekai_master_api.Masterdata.Index.Keys.Lookup.{Carries, index_keys_exact}
use sekai_master_api.Masterdata.Index.Keys.Distinct.{Distinct, distinct-exact}

abbrev go : Runtime ℕ
go = record {
  finite = λ f. true;
  format64 = λ f. [];
  format32 = λ f. [];
  parse_float = λ s. none;
  print = λ v. [];
  sha256_hex = λ b. [];
}

abbrev entity : Bytes
entity = codes "resourceBoxes"

abbrev box : Fields ℕ
box =
    Fields.field (codes "resourceBoxPurpose") (Value.str (codes "shop"))
      (Fields.field (codes "id") (Value.number (codes "12")) Fields.end)

abbrev box_parts : List Bytes
box_parts = codes "12" ∷ (codes "shop" ∷ [])

-- The entity is normalized before it is encoded.
same_key :
    encode_composite_key (codes "A ") (codes "id" ∷ []) (codes "1" ∷ [])
    ≡ encode_composite_key (codes "a") (codes "id" ∷ []) (codes "1" ∷ [])
unfolding encode_composite_key normalize_entity to_lower trim_space
same_key = refl

encode_composite_key_injective_example :
    (normalize_entity (codes "A ") ≡ normalize_entity (codes "a"))
    × ((codes "id" ∷ []) ≡ (codes "id" ∷ []))
    × ((codes "1" ∷ []) ≡ (codes "1" ∷ []))
encode_composite_key_injective_example =
    encode_composite_key_injective (codes "A ") (codes "a") (codes "id" ∷ []) (codes "1" ∷ [])
      (codes "id" ∷ []) (codes "1" ∷ []) refl refl same_key

uses : uses_composite_key entity ≡ true
unfolding uses_composite_key same to_lower trim_space
uses = refl

parts : key_parts go (composite_key_fields entity) box ≡ some box_parts
unfolding key_parts composite_key_fields normalize_entity same to_lower trim_space get parse_int64
    parse_uint64 value format_int itoa
parts = refl

composite_record_key_total_example :
    composite_record_key go entity box
    ≡ some (
        composite_key_prefix
        ++ frames (normalize_entity entity ∷ interleave (composite_key_fields entity) box_parts))
composite_record_key_total_example = composite_record_key_total go entity box box_parts uses parts

-- The same box with its id as a string.
abbrev text_box : Fields ℕ
text_box =
    Fields.field (codes "id") (Value.str (codes "12"))
      (Fields.field (codes "resourceBoxPurpose") (Value.str (codes "shop")) Fields.end)

abbrev box_key : Bytes
box_key =
    composite_key_prefix
    ++ frames (normalize_entity entity ∷ interleave (composite_key_fields entity) box_parts)

text_parts : key_parts go (composite_key_fields entity) text_box ≡ some box_parts
unfolding key_parts composite_key_fields normalize_entity same to_lower trim_space get parse_int64
    parse_uint64 value format_int itoa
text_parts = refl

composite_record_key_injective_example :
    key_parts go (composite_key_fields entity) box
    ≡ key_parts go (composite_key_fields entity) text_box
composite_record_key_injective_example =
    composite_record_key_injective go entity box text_box box_key
      (composite_record_key_total go entity box box_parts uses parts)
      (composite_record_key_total go entity text_box box_parts uses text_parts)

nine : is_numeric_key (codes "9") ≡ true
unfolding is_numeric_key
nine = refl

ten : is_numeric_key (codes "10") ≡ true
unfolding is_numeric_key
ten = refl

other : is_numeric_key (codes "auto:1") ≡ false
unfolding is_numeric_key
other = refl

abbrev card : Fields ℕ
card = Fields.field (codes "characterId") (Value.number (codes "21")) Fields.end

abbrev wanted : List (Value ℕ)
wanted = Value.int (ℤ.pos 21) ∷ []

looked_up : index_lookup_key go wanted ≡ some (codes "21")
unfolding index_lookup_key canonical_key_part format_int itoa
looked_up = refl

plain : parse_element_index (codes "characterId") ≡ none
unfolding parse_element_index cut_before
plain = refl

one_field : length wanted ≡ length (split 44 (codes "characterId"))
unfolding split
one_field = refl

index_keys_exact_example :
    In (codes "21") (index_keys go card (codes "characterId"))
    ↔ Carries go card (split 44 (codes "characterId")) wanted
index_keys_exact_example =
    index_keys_exact go card (codes "characterId") wanted (codes "21") plain one_field looked_up

abbrev numbers : Bytes × Bytes
numbers = (codes "9", codes "10")

block_sort_key_numeric_example :
    less (block_sort_key numbers.0) (block_sort_key numbers.1)
    ≡ ltb (value 0 numbers.0) (value 0 numbers.1)
block_sort_key_numeric_example = block_sort_key_numeric numbers.0 numbers.1 nine ten

numeric_before_other_example :
    less (block_sort_key numbers.0) (block_sort_key (codes "auto:1")) ≡ true
numeric_before_other_example = numeric_before_other numbers.0 (codes "auto:1") nine other

block_sort_key_injective_example : codes "10" ≡ numbers.1
block_sort_key_injective_example = block_sort_key_injective (codes "10") numbers.1 refl

index_names-version_example :
    index_names_from_version (index_version (codes "cards")) ≡ entity_indexes (codes "cards")
index_names-version_example = index_names-version (codes "cards")

abbrev repeated : List Bytes
repeated = codes "a" ∷ (codes "b" ∷ (codes "a" ∷ []))

distinct-exact_example :
    Distinct (distinct repeated) × ((x : Bytes) → In x (distinct repeated) ↔ In x repeated)
distinct-exact_example = distinct-exact repeated
