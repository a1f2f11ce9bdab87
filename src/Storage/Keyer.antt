-- ===== src/Storage/Keyer.antt =====
-- internal/storage/master_data_record_keys.go: the record keys of one entity, in source order.
pub mod Fresh
use sekai_master_api.Prelude.{
  ℕ, zero, suc, ◌+◌, Bool, true, false, Option, none, some, List, [], ◌∷◌, ◌++◌, ◌==◌,
  if◌then◌else◌,
}
use sekai_master_api.Prelude.Text.{Bytes, same}
use sekai_master_api.Prelude.Decimal.{itoa}
use sekai_master_api.Masterdata.Json.{Fields, Runtime}
use sekai_master_api.Masterdata.RecordKey.{
  uses_composite_key, composite_record_key, record_key, auto_record_key,
}
use sekai_master_api.Masterdata.RecordKey.Raw.{
  Decoder, composite_record_key_from_raw, record_key_from_raw,
}

-- `map[string]int`; a missing key reads as 0.
abbrev pub Occurrences : Type 0
Occurrences = List (Bytes × ℕ)

unfoldable pub occurrences_of : Bytes → Occurrences → ℕ
occurrences_of key [] = 0
occurrences_of key ((name, n) ∷ rest) = if same name key then n else occurrences_of key rest

unfoldable pub set_occurrences : Bytes → ℕ → Occurrences → Occurrences
set_occurrences key n [] = (key, n) ∷ []
set_occurrences key n ((name, m) ∷ rest) =
    if same name key then (key, n) ∷ rest else (name, m) ∷ set_occurrences key n rest

pub record RecordKeyer : Type 0 where
  pub entity : Bytes
  pub fallback_occurrences : Occurrences

unfoldable pub new_record_keyer : Bytes → RecordKeyer
new_record_keyer entity = record { entity = entity; fallback_occurrences = [] }

-- The key of an occurrence: the base key, from the second occurrence on with a suffix.
unfoldable pub fallback_text : Bytes → ℕ → Bytes
fallback_text base n = if n == 0 then base else base ++ 58 ∷ itoa n

-- A record as a store feeds it to the keyer: decoded, with its JSON body, or as its body alone.
pub data Fed (F : Type 0) : Type 0 where
  fed_record : Fields F → Bytes → Fed F
  fed_body : Bytes → Fed F

module _ {F : Type 0} (go : Runtime F) where
  unfoldable pub fallback_key : RecordKeyer → Bytes → RecordKeyer × Bytes
  unfolding fallback_text set_occurrences occurrences_of
  fallback_key keyer body =
      let base = auto_record_key go body in
      let occurrence = occurrences_of base keyer.fallback_occurrences in
      (
        record keyer {
          fallback_occurrences = set_occurrences base (occurrence + 1) keyer.fallback_occurrences;
        },
        fallback_text base occurrence,
      )

  or_fallback : RecordKeyer → Bytes → Option Bytes → RecordKeyer × Bytes
  unfolding fallback_key
  or_fallback keyer body none = fallback_key keyer body
  or_fallback keyer body (some k) = (keyer, k)

  unfoldable pub key : RecordKeyer → Fields F → Bytes → RecordKeyer × Bytes
  unfolding or_fallback
  key keyer record_ body =
      if uses_composite_key keyer.entity
      then or_fallback keyer body (composite_record_key go keyer.entity record_)
      else (keyer, record_key go record_ body)

  module _ (json : Decoder F) where
    unfoldable pub key_from_raw : RecordKeyer → Bytes → RecordKeyer × Bytes
    unfolding or_fallback
    key_from_raw keyer body =
        if uses_composite_key keyer.entity
        then or_fallback keyer body (composite_record_key_from_raw go json keyer.entity body)
        else (keyer, record_key_from_raw go json body)

    unfoldable pub key_of : RecordKeyer → Fed F → RecordKeyer × Bytes
    unfolding key key_from_raw
    key_of keyer (fed_record record_ body) = key keyer record_ body
    key_of keyer (fed_body body) = key_from_raw keyer body

    -- The keys of records, fed in source order.
    unfoldable pub keys : RecordKeyer → List (Fed F) → List Bytes
    unfolding key_of
    keys keyer [] = []
    keys keyer (fed ∷ rest) = let (next, k) = key_of keyer fed in k ∷ keys next rest
