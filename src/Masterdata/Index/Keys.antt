-- ===== src/Masterdata/Index/Keys.antt =====
-- `IndexKeys`, `IndexLookupKey` and what they call of index.go.
pub mod Distinct
pub mod Parts
pub mod Lookup
use sekai_master_api.Prelude.{
  ℕ, Bool, false, ◌&&◌, not, Option, none, some, List, [], ◌∷◌, ◌++◌, ◌==◌, ltb, if◌then◌else◌,
  length,
}
use sekai_master_api.Prelude.Text.{Bytes}
use sekai_master_api.Prelude.Decimal.{itoa}
use sekai_master_api.Prelude.Split.{split, cut_after, cut_before, contains_byte}
use sekai_master_api.Masterdata.Json.{Value, Fields, get, Runtime}
use sekai_master_api.Masterdata.RecordKey.{canonical_key_part, part_of}
use sekai_master_api.Masterdata.Index.Table.{is_among}
use sekai_master_api.Masterdata.Index.Paths.{objects_of, values_at_path, path_values}

-- `distinct` with the values that were seen.
unfoldable pub distinct_from : List Bytes → List Bytes → List Bytes
distinct_from seen [] = []
distinct_from seen (v ∷ vs) =
    let skip = distinct_from seen vs in
    let keep = v ∷ distinct_from (v ∷ seen) vs in if is_among v seen then skip else keep

unfoldable pub distinct : List Bytes → List Bytes
unfolding distinct_from is_among
distinct values = distinct_from [] values

unfoldable pub append_index_key_part : Bytes → Bytes → ℕ → Bytes
append_index_key_part key part count =
    if count == 1 then part else key ++ (itoa (length part) ++ 58 ∷ part)

-- What `parseElementIndex` gives: the path of the array and the fields of its elements.
pub record ElementIndex : Type 0 where
  pub path : List Bytes
  pub fields : List Bytes

last_is : ℕ → Bytes → Bool
last_is c [] = false
last_is c (x ∷ []) = x == c
last_is c (x ∷ y ∷ s) = last_is c (y ∷ s)

drop_last : Bytes → Bytes
drop_last [] = []
drop_last (x ∷ []) = []
drop_last (x ∷ y ∷ s) = x ∷ drop_last (y ∷ s)

element_fields : Bytes → List Bytes → Option ElementIndex
element_fields front fields =
    if ltb (length fields) 2 then none else some (record { path = split 46 front; fields = fields })

-- `front` is the text in front of the first `[`, `behind` the text after it.
element_index : Bytes → Option Bytes → Option Bytes → Option ElementIndex
unfolding element_fields last_is drop_last
element_index index (some (c ∷ front)) (some behind) =
    if last_is 93 index && not (contains_byte 44 index)
    then element_fields (c ∷ front) (split 43 (drop_last behind))
    else none
element_index index _ _ = none

unfoldable pub parse_element_index : Bytes → Option ElementIndex
unfolding element_index
parse_element_index index = element_index index (cut_before 91 index) (cut_after 91 index)

module _ {F : Type 0} (go : Runtime F) where
  push_key : Option Bytes → List Bytes → List Bytes
  push_key none rest = rest
  push_key (some k) rest = k ∷ rest

  -- The canonical parts of values; the others are left out.
  unfoldable pub parts_of : List (Value F) → List Bytes
  unfolding push_key
  parts_of [] = []
  parts_of (v ∷ vs) = push_key (canonical_key_part go v) (parts_of vs)

  unfoldable pub field_parts : Fields F → Bytes → List Bytes
  unfolding parts_of path_values
  field_parts record_ name = parts_of (path_values record_ (split 46 name))

  with_parts : Bytes → List Bytes → ℕ → List Bytes
  with_parts prefix [] count = []
  with_parts prefix (part ∷ parts) count =
      append_index_key_part prefix part count ∷ with_parts prefix parts count

  pub with_prefixes : List Bytes → List Bytes → ℕ → List Bytes
  unfolding with_parts append_index_key_part
  with_prefixes [] parts count = []
  with_prefixes (prefix ∷ keys) parts count =
      with_parts prefix parts count ++ with_prefixes keys parts count

  -- The loop of `IndexKeys` over the fields; `none` is its early return of nil.
  extend_keys : Fields F → ℕ → List Bytes → List Bytes → Option (List Bytes)
  unfolding field_parts with_prefixes
  extend_keys record_ count keys [] = some keys
  extend_keys record_ count keys (name ∷ fields) =
      let parts = field_parts record_ name in
      let rest = extend_keys record_ count (with_prefixes keys parts count) fields in
      if length parts == 0 then none else rest

  or_nil : Option (List Bytes) → List Bytes
  or_nil none = []
  or_nil (some keys) = distinct keys

  unfoldable pub field_index_keys : Fields F → List Bytes → List Bytes
  unfolding extend_keys or_nil distinct
  field_index_keys record_ fields = or_nil (extend_keys record_ (length fields) ([] ∷ []) fields)

  extend_key : ℕ → Bytes → Option Bytes → Option Bytes
  unfolding append_index_key_part
  extend_key count key none = none
  extend_key count key (some part) = some (append_index_key_part key part count)

  then_part : ℕ → Option Bytes → Option Bytes → Option Bytes
  unfolding extend_key
  then_part count none part = none
  then_part count (some key) part = extend_key count key part

  element_key_from : Fields F → ℕ → Option Bytes → List Bytes → Option Bytes
  unfolding then_part
  element_key_from object_ count key [] = key
  element_key_from object_ count key (name ∷ fields) =
      element_key_from object_ count (then_part count key (part_of go (get name object_))) fields

  unfoldable pub element_index_key : Fields F → List Bytes → Option Bytes
  unfolding element_key_from
  element_index_key object_ fields = element_key_from object_ (length fields) (some []) fields

  keys_of_objects : List (Fields F) → List Bytes → List Bytes
  unfolding element_index_key push_key
  keys_of_objects [] fields = []
  keys_of_objects (object_ ∷ rest) fields =
      push_key (element_index_key object_ fields) (keys_of_objects rest fields)

  all_objects : List (Value F) → List (Fields F)
  unfolding objects_of
  all_objects [] = []
  all_objects (v ∷ vs) = objects_of v ++ all_objects vs

  unfoldable pub element_index_keys : Fields F → ElementIndex → List Bytes
  unfolding keys_of_objects all_objects values_at_path distinct
  element_index_keys record_ e =
      distinct (keys_of_objects (all_objects (values_at_path record_ e.path)) e.fields)

  keys_by : Fields F → Bytes → Option ElementIndex → List Bytes
  unfolding field_index_keys element_index_keys
  keys_by record_ index none = field_index_keys record_ (split 44 index)
  keys_by record_ index (some e) = element_index_keys record_ e

  unfoldable pub index_keys : Fields F → Bytes → List Bytes
  unfolding keys_by parse_element_index
  index_keys record_ index = keys_by record_ index (parse_element_index index)

  lookup_key_from : ℕ → Option Bytes → List (Value F) → Option Bytes
  unfolding then_part
  lookup_key_from count key [] = key
  lookup_key_from count key (v ∷ vs) =
      lookup_key_from count (then_part count key (canonical_key_part go v)) vs

  -- `none` is the result with `false`.
  unfoldable pub index_lookup_key : List (Value F) → Option Bytes
  unfolding lookup_key_from
  index_lookup_key [] = none
  index_lookup_key (v ∷ vs) = lookup_key_from (length (v ∷ vs)) (some []) (v ∷ vs)
