-- ===== src/Masterdata/RecordKey.antt =====
-- internal/domain/masterdata/record_key.go, with `CanonicalKeyPart` and `normalizeEntity` of
-- index.go. The sort keys of blocks are in the child SortKey, the proofs in the others.
pub mod Composite
pub mod SortKey
pub mod Raw
use sekai_master_api.Prelude.{ℕ, ◌+◌, Bool, true, false, Option, none, some, List, [], ◌∷◌, ◌++◌}
use sekai_master_api.Prelude.{◌==◌, ltb, if◌then◌else◌, length}
use sekai_master_api.Prelude.Text.{Bytes, codes, same, trim_space, to_lower}
use sekai_master_api.Prelude.Decimal.{itoa}
use sekai_master_api.Masterdata.Json.{
  ℤ, Value, null, str, number, float64, float32, int, uint, bool, array, object, Fields, get,
  Runtime, format_int, parse_int64, parse_uint64,
}

unfoldable pub composite_key_prefix : Bytes
composite_key_prefix = codes "composite:v1:"

unfoldable pub auto_key_prefix : Bytes
auto_key_prefix = codes "auto:"

unfoldable pub normalize_entity : Bytes → Bytes
normalize_entity entity = to_lower (trim_space entity)

-- The fields that key a composite-key entity; the empty list stands for nil.
unfoldable pub composite_key_fields : Bytes → List Bytes
unfolding normalize_entity
composite_key_fields entity =
    let name = normalize_entity entity in
    if same name (codes "resourceboxes")
    then codes "id" ∷ codes "resourceBoxPurpose" ∷ []
    else if same name (codes "resourceboxdetails")
    then codes "resourceBoxId" ∷ codes "resourceBoxPurpose" ∷ codes "seq" ∷ []
    else if same name (codes "charactermissionv2parametergroups")
    then codes "id" ∷ codes "seq" ∷ []
    else []

unfoldable pub uses_composite_key : Bytes → Bool
unfolding composite_key_fields
uses_composite_key entity = ltb 0 (length (composite_key_fields entity))

-- `appendCompositeKeyPart`: a part behind its length in bytes and a colon.
unfoldable pub append_composite_key_part : Bytes → Bytes → Bytes
append_composite_key_part builder part = builder ++ (itoa (length part) ++ 58 ∷ part)

-- The loop of `EncodeCompositeKey`; `none` is the panic of `values[index]` out of range.
append_parts : Bytes → List Bytes → List Bytes → Option Bytes
unfolding append_composite_key_part
append_parts builder [] values = some builder
append_parts builder (name ∷ fields) [] = none
append_parts builder (name ∷ fields) (part ∷ values) =
    append_parts (append_composite_key_part (append_composite_key_part builder name) part) fields
      values

unfoldable pub encode_composite_key : Bytes → List Bytes → List Bytes → Option Bytes
unfolding append_parts normalize_entity composite_key_prefix
encode_composite_key entity fields values =
    append_parts (append_composite_key_part composite_key_prefix (normalize_entity entity)) fields
      values

module _ {F : Type 0} (go : Runtime F) where
  -- The float that `strconv.ParseFloat` gave, printed, if it is finite.
  float_part : Option F → Option Bytes
  float_part none = none
  float_part (some x) = if go.finite x then some (go.format64 x) else none

  unsigned_part : Bytes → Option ℕ → Option Bytes
  unfolding float_part
  unsigned_part text none = float_part (go.parse_float text)
  unsigned_part text (some n) = some (itoa n)

  signed_part : Bytes → Option ℤ → Option Bytes
  unfolding unsigned_part
  signed_part text none = unsigned_part text (parse_uint64 text)
  signed_part text (some z) = some (format_int z)

  -- `canonicalNumber`.
  unfoldable pub canonical_number : Bytes → Option Bytes
  unfolding signed_part
  canonical_number text =
      let value = trim_space text in
      if length value == 0 then none else signed_part value (parse_int64 value)

  unfoldable pub canonical_key_part : Value F → Option Bytes
  unfolding canonical_number
  canonical_key_part (Value.str s) =
      let part = trim_space s in if length part == 0 then none else some part
  canonical_key_part (Value.number s) = canonical_number s
  canonical_key_part (Value.float64 x) = if go.finite x then some (go.format64 x) else none
  canonical_key_part (Value.float32 x) = if go.finite x then some (go.format32 x) else none
  canonical_key_part (Value.int z) = some (format_int z)
  canonical_key_part (Value.uint n) = some (itoa n)
  canonical_key_part (Value.bool true) = some (codes "true")
  canonical_key_part (Value.bool false) = some (codes "false")
  canonical_key_part Value.null = none
  canonical_key_part (Value.array items) = none
  canonical_key_part (Value.object fields) = none

  unfoldable pub part_of : Option (Value F) → Option Bytes
  unfolding canonical_key_part
  part_of none = none
  part_of (some v) = canonical_key_part v

  push_part : Option Bytes → Option (List Bytes) → Option (List Bytes)
  push_part none rest = none
  push_part (some part) none = none
  push_part (some part) (some parts) = some (part ∷ parts)

  -- The loop of `CompositeRecordKey` over the key fields.
  unfoldable pub key_parts : List Bytes → Fields F → Option (List Bytes)
  unfolding part_of push_part
  key_parts [] record_ = some []
  key_parts (name ∷ fields) record_ =
      push_part (part_of (get name record_)) (key_parts fields record_)

  pub encode_parts : Bytes → List Bytes → Option (List Bytes) → Option Bytes
  encode_parts entity fields none = none
  encode_parts entity fields (some values) = encode_composite_key entity fields values

  -- `none` is the result with `false`: `key_parts` gives a value for each field, so that the
  -- encoding does not panic.
  unfoldable pub composite_record_key : Bytes → Fields F → Option Bytes
  unfolding encode_parts
  composite_record_key entity record_ =
      let fields = composite_key_fields entity in
      if length fields == 0 then none else encode_parts entity fields (key_parts fields record_)

  or_print : Value F → Option Bytes → Bytes
  or_print v none = trim_space (go.print v)
  or_print v (some id) = id

  unfoldable pub format_record_id : Value F → Bytes
  unfolding or_print
  format_record_id v = or_print v (canonical_key_part v)

  id_text : Option (Value F) → Bytes
  unfolding format_record_id
  id_text none = []
  id_text (some Value.null) = []
  id_text (some v) = format_record_id v

  unfoldable pub record_id : Fields F → Bytes
  unfolding id_text
  record_id record_ = id_text (get (codes "id") record_)

  unfoldable pub auto_record_key : Bytes → Bytes
  unfolding auto_key_prefix
  auto_record_key body = if length body == 0 then [] else auto_key_prefix ++ go.sha256_hex body

  unfoldable pub record_key : Fields F → Bytes → Bytes
  unfolding record_id auto_record_key
  record_key record_ body =
      let id = record_id record_ in if length id == 0 then auto_record_key body else id
