-- ===== src/Masterdata/RecordKey/Composite.antt =====
-- Composite record keys tell the key parts of records apart.
use sekai_master_api.Prelude.{
  suc, true, Option, none, some, List, [], ◌∷◌, ◌++◌, length, ◌≡◌, refl, sym, ap, ◌∙◌, arith,
  append_assoc, append-nil, some_inj, ◌==◌, if◌then◌else◌,
}
use sekai_master_api.Prelude.Text.{Bytes}
use sekai_master_api.Prelude.Framing.{frame, frames, frames_injective, append_unique}
use sekai_master_api.Masterdata.Json.{Fields, Runtime, get}
use sekai_master_api.Masterdata.RecordKey.{
  append_parts, encode_composite_key, composite_key_prefix, normalize_entity, key_parts, push_part,
  part_of, composite_record_key, composite_key_fields, encode_parts, uses_composite_key,
}

-- Names and parts by turns.
pub interleave : List Bytes → List Bytes → List Bytes
interleave [] values = []
interleave (f ∷ fs) [] = []
interleave (f ∷ fs) (v ∷ vs) = f ∷ v ∷ interleave fs vs

append_parts-frames :
    (b : Bytes) (fs vs : List Bytes)
    → length fs ≡ length vs
    → append_parts b fs vs ≡ some (b ++ frames (interleave fs vs))
unfolding append_parts interleave
append_parts-frames b [] vs h = rw append-nil
append_parts-frames b (f ∷ fs) [] h = absurd (omega arith)
append_parts-frames b (f ∷ fs) (v ∷ vs) h =
    append_parts-frames ((b ++ frame f) ++ frame v) fs vs (omega arith)
    ∙ ap some (append_assoc (b ++ frame f) (frame v) _ ∙ append_assoc b (frame f) _)

interleave_injective :
    (fs vs gs ws : List Bytes)
    → length fs ≡ length vs
    → length gs ≡ length ws
    → interleave fs vs ≡ interleave gs ws
    → (fs ≡ gs) × (vs ≡ ws)
unfolding interleave
interleave_injective [] [] [] [] h k e = (refl, refl)
interleave_injective [] (v ∷ vs) gs ws h k e = absurd (omega arith)
interleave_injective [] [] [] (w ∷ ws) h k e = absurd (omega arith)
interleave_injective [] [] (g ∷ gs) [] h k e = absurd (omega arith)
interleave_injective [] [] (g ∷ gs) (w ∷ ws) h k e = cc
interleave_injective (f ∷ fs) [] gs ws h k e = absurd (omega arith)
interleave_injective (f ∷ fs) (v ∷ vs) [] [] h k e = cc
interleave_injective (f ∷ fs) (v ∷ vs) [] (w ∷ ws) h k e = absurd (omega arith)
interleave_injective (f ∷ fs) (v ∷ vs) (g ∷ gs) [] h k e = absurd (omega arith)
interleave_injective (f ∷ fs) (v ∷ vs) (g ∷ gs) (w ∷ ws) h k e =
    ground (arith, interleave_injective fs vs gs ws)

pub encode_frames :
    (entity : Bytes) (fs vs : List Bytes)
    → length fs ≡ length vs
    → encode_composite_key entity fs vs
      ≡ some (composite_key_prefix ++ frames (normalize_entity entity ∷ interleave fs vs))
unfolding encode_composite_key
encode_frames entity fs vs h =
    append_parts-frames _ fs vs h
    ∙ ap some (
        append_assoc composite_key_prefix (frame (normalize_entity entity))
          (frames (interleave fs vs)))

-- Two composite keys, each built from as many values as fields, are equal only if the normalized
-- entities, the fields and the values are equal.
pub encode_composite_key_injective :
    (e d : Bytes) (fs vs gs ws : List Bytes)
    → length fs ≡ length vs
    → length gs ≡ length ws
    → encode_composite_key e fs vs ≡ encode_composite_key d gs ws
    → (normalize_entity e ≡ normalize_entity d) × (fs ≡ gs) × (vs ≡ ws)
encode_composite_key_injective e d fs vs gs ws hf hg h =
    let same_text = some_inj _ _ (sym (encode_frames e fs vs hf) ∙ h ∙ encode_frames d gs ws hg) in
    let same_frames =
      (append_unique composite_key_prefix composite_key_prefix _ _ refl same_text).1 in
    let same_parts = frames_injective _ _ same_frames in
    let parts : (normalize_entity e ≡ normalize_entity d) × (interleave fs vs ≡ interleave gs ws) =
      heads_tails _ _ _ _ same_parts in
    let both = interleave_injective fs vs gs ws hf hg parts.1 in (parts.0, both.0, both.1)
  where
    heads_tails : (a b : Bytes) (s t : List Bytes) → a ∷ s ≡ b ∷ t → (a ≡ b) × (s ≡ t)
    heads_tails a b s t p = ground arith

module _ {F : Type 0} (go : Runtime F) where
  -- The loop collects one part for each field, so that the encoding finds a value for each.
  pub length-key_parts :
      (fs : List Bytes) (r : Fields F) (vs : List Bytes)
      → key_parts go fs r ≡ some vs
      → length fs ≡ length vs
  unfolding key_parts
  length-key_parts [] r vs h = ground arith
  length-key_parts (f ∷ fs) r vs h =
      collected (part_of go (get f r)) (key_parts go fs r) vs h (length-key_parts fs r)
    where
      collected :
          (p : Option Bytes) (rest : Option (List Bytes)) (vs : List Bytes)
          → push_part go p rest ≡ some vs
          → ((ws : List Bytes) → rest ≡ some ws → length fs ≡ length ws)
          → suc (length fs) ≡ length vs
      collected none rest vs e ih = cc
      collected (some p) none vs e ih = cc
      collected (some p) (some ws) vs e ih = ground (arith, ih ws)

  -- A composite key is the encoding of the collected parts.
  pub keyed :
      (entity k : Bytes) (fs : List Bytes) (collected : Option (List Bytes))
      → (if length fs == 0 then none else encode_parts go entity fs collected) ≡ some k
      → (vs : List Bytes) × (collected ≡ some vs) × (encode_composite_key entity fs vs ≡ some k)
  unfolding encode_parts
  keyed entity k fs none h = absurd (ground arith)
  keyed entity k fs (some vs) h = (vs, refl, ground arith)

  module _ (entity : Bytes) where
    -- Of a record of a composite-key entity that has a part for every key field the composite key
    -- exists, and is the encoding of those parts: the encoding does not panic.
    pub composite_record_key_total :
        (r : Fields F) (vs : List Bytes)
        → uses_composite_key entity ≡ true
        → key_parts go (composite_key_fields entity) r ≡ some vs
        → composite_record_key go entity r
          ≡ some (
              composite_key_prefix
              ++ frames (normalize_entity entity ∷ interleave (composite_key_fields entity) vs))
    unfolding composite_record_key encode_parts uses_composite_key
    composite_record_key_total r vs uses h = ground (
      arith,
      encode_frames entity (composite_key_fields entity) vs
          (length-key_parts (composite_key_fields entity) r vs h),
    )

    -- Two records of an entity with the same composite key have the same part for every key field.
    pub composite_record_key_injective :
        (r s : Fields F) (k : Bytes)
        → composite_record_key go entity r ≡ some k
        → composite_record_key go entity s ≡ some k
        → key_parts go (composite_key_fields entity) r
          ≡ key_parts go (composite_key_fields entity) s
    composite_record_key_injective r s k hr hs =
        let fields = composite_key_fields entity in
        let (vs, parts_r, code_r) =
          keyed entity k fields (key_parts go fields r) (unfold composite_record_key in hr) in
        let (ws, parts_s, code_s) =
          keyed entity k fields (key_parts go fields s) (unfold composite_record_key in hs) in
        let equal =
          encode_composite_key_injective entity entity fields vs fields ws
            (length-key_parts fields r vs parts_r) (length-key_parts fields s ws parts_s)
            (code_r ∙ sym code_s) in
        parts_r ∙ ap some equal.2 ∙ sym parts_s

    -- Every composite key begins with the prefix.
    pub composite_record_key_prefix :
        (r : Fields F) (k : Bytes)
        → composite_record_key go entity r ≡ some k
        → (rest : Bytes) × (k ≡ composite_key_prefix ++ rest)
    composite_record_key_prefix r k h =
        let fields = composite_key_fields entity in
        let (vs, parts, code) =
          keyed entity k fields (key_parts go fields r) (unfold composite_record_key in h) in
        (
          frames (normalize_entity entity ∷ interleave fields vs),
          some_inj _ _
              (sym code ∙ encode_frames entity fields vs (length-key_parts fields r vs parts)),
        )
