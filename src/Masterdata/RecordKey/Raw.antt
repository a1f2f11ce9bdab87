-- ===== src/Masterdata/RecordKey/Raw.antt =====
-- `CompositeRecordKeyFromRaw` and `RecordKeyFromRaw` of record_key.go: the keys of records that are
-- given as their JSON bodies.
use sekai_master_api.Prelude.{
  ℕ, suc, Option, none, some, List, [], ◌∷◌, ◌++◌, length, ◌==◌, ◌||◌, if◌then◌else◌, ◌≡◌, sym, ◌∙◌,
  arith, some_inj, Bool-cases, inl, inr,
}
use sekai_master_api.Prelude.Text.{Bytes, codes, same}
use sekai_master_api.Prelude.Framing.{frames}
use sekai_master_api.Masterdata.Json.{Value, Runtime}
use sekai_master_api.Masterdata.RecordKey.{
  composite_key_fields, composite_key_prefix, normalize_entity, part_of, push_part, encode_parts,
  format_record_id, auto_record_key,
}
use sekai_master_api.Masterdata.RecordKey.Composite.{keyed, encode_frames, interleave}

-- What is not modelled of the decoding of JSON: `json.Unmarshal` into a map of raw values, into a
-- struct whose only field is the raw `id` (empty where the body has none), and `Decode` of a raw
-- value with its numbers kept as `json.Number`. `none` is an error.
pub record Decoder (F : Type 0) : Type 0 where
  pub raw_fields : Bytes → Option (List (Bytes × Bytes))
  pub raw_id : Bytes → Option Bytes
  pub decode : Bytes → Option (Value F)

raw_get : Bytes → List (Bytes × Bytes) → Option Bytes
raw_get key [] = none
raw_get key ((name, raw) ∷ rest) = if same name key then some raw else raw_get key rest

module _ {F : Type 0} (go : Runtime F) (json : Decoder F) where
  raw_part : Option Bytes → Option Bytes
  raw_part none = none
  raw_part (some raw) = if length raw == 0 then none else part_of go (json.decode raw)

  -- The loop of `CompositeRecordKeyFromRaw` over the key fields.
  raw_parts : List Bytes → List (Bytes × Bytes) → Option (List Bytes)
  raw_parts [] record_ = some []
  raw_parts (name ∷ fields) record_ =
      push_part go (raw_part (raw_get name record_)) (raw_parts fields record_)

  parts_from : List Bytes → Option (List (Bytes × Bytes)) → Option (List Bytes)
  parts_from fields none = none
  parts_from fields (some record_) = raw_parts fields record_

  -- `none` is the result with `false`.
  pub composite_record_key_from_raw : Bytes → Bytes → Option Bytes
  composite_record_key_from_raw entity body =
      let fields = composite_key_fields entity in
      if length fields == 0 || length body == 0
      then none
      else encode_parts go entity fields (parts_from fields (json.raw_fields body))

  decoded_id : Option (Value F) → Bytes
  decoded_id none = []
  decoded_id (some v) = format_record_id go v

  id_from_raw : Option Bytes → Bytes
  unfolding decoded_id
  id_from_raw none = []
  id_from_raw (some raw) =
      if length raw == 0 || same raw (codes "null") then [] else decoded_id (json.decode raw)

  pub record_key_from_raw : Bytes → Bytes
  unfolding id_from_raw
  record_key_from_raw body =
      let id = id_from_raw (json.raw_id body) in
      if length id == 0 then auto_record_key go body else id

  length-push_part :
      (n : ℕ) (p : Option Bytes) (rest : Option (List Bytes)) (vs : List Bytes)
      → push_part go p rest ≡ some vs
      → ((ws : List Bytes) → rest ≡ some ws → n ≡ length ws)
      → suc n ≡ length vs
  unfolding push_part
  length-push_part n none rest vs e ih = absurd cc
  length-push_part n (some p) none vs e ih = absurd cc
  length-push_part n (some p) (some ws) vs e ih = ground (arith, ih ws)

  length-raw_parts :
      (fields : List Bytes) (record_ : List (Bytes × Bytes)) (vs : List Bytes)
      → raw_parts fields record_ ≡ some vs
      → length fields ≡ length vs
  unfolding raw_parts
  length-raw_parts [] record_ vs h = ground arith
  length-raw_parts (name ∷ fields) record_ vs h =
      length-push_part (length fields) _ (raw_parts fields record_) vs h
        (length-raw_parts fields record_)

  length-parts_from :
      (fields : List Bytes) (o : Option (List (Bytes × Bytes))) (vs : List Bytes)
      → parts_from fields o ≡ some vs
      → length fields ≡ length vs
  unfolding parts_from
  length-parts_from fields none vs h = absurd cc
  length-parts_from fields (some record_) vs h = length-raw_parts fields record_ vs h

  -- Every composite key of a body begins with the prefix.
  pub composite_record_key_from_raw-prefix :
      (entity body k : Bytes)
      → composite_record_key_from_raw entity body ≡ some k
      → (rest : Bytes) × (k ≡ composite_key_prefix ++ rest)
  unfolding composite_record_key_from_raw
  composite_record_key_from_raw-prefix entity body k h =
      let fields = composite_key_fields entity in
      let o = json.raw_fields body in
      elim (Bool-cases (length fields == 0 || length body == 0)) [
        | inl e ↦ absurd (cc (rw e at h))
        | inr e ↦
            let (vs, parts, code) =
              keyed go entity k fields (parts_from fields o) (ground (arith, e, rw e at h)) in
            (
              frames (normalize_entity entity ∷ interleave fields vs),
              some_inj _ _
                  (sym code ∙ encode_frames entity fields vs (length-parts_from fields o vs parts)),
            )
      ]
