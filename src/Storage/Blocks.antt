-- ===== src/Storage/Blocks.antt =====
-- internal/storage/master_data_blocks.go: an entity's records in blocks, sorted by sort key.
pub mod Limits
pub mod Grouping
pub mod Order
use sekai_master_api.Prelude.{
  ℕ, suc, ◌+◌, ◌≡◌, refl, Bool, true, false, ◌&&◌, Option, none, some, List, [], ◌∷◌, ◌++◌, length,
  ltb, if◌then◌else◌,
}
use sekai_master_api.Prelude.Text.{Bytes, codes, same, less}
use sekai_master_api.Prelude.Decimal.{itoa}
use sekai_master_api.Prelude.Sort.{sort}
use sekai_master_api.Masterdata.RecordKey.SortKey.{block_sort_key}

abbrev pub master_block_max_records : ℕ
master_block_max_records = 32

abbrev pub master_block_max_bytes : ℕ
master_block_max_bytes = 65536

pub record BlockEntry : Type 0 where
  pub key : Bytes
  pub sort_key : Bytes
  pub positions : List ℕ
  pub record_json : Bytes

pub record EncodedBlock : Type 0 where
  pub first_key : Bytes
  pub body : Bytes

abbrev pub before_entry : BlockEntry → BlockEntry → Bool
before_entry e f = less e.sort_key f.sort_key

-- `sort.Slice` by sort key; entries of equal sort keys stay in their order.
unfoldable pub sort_entries : List BlockEntry → List BlockEntry
sort_entries = sort before_entry

pub is_nonempty : List BlockEntry → Bool
is_nonempty [] = false
is_nonempty (e ∷ es) = true

pub emit : Bool → List BlockEntry → List (List BlockEntry) → List (List BlockEntry)
emit true block blocks = blocks
emit false block blocks = block ∷ blocks

-- The block stays open for the next entry.
pub goes_on : List BlockEntry → ℕ → List BlockEntry → Bool
goes_on block size es =
    ltb (length block) master_block_max_records
    && (ltb size master_block_max_bytes && is_nonempty es)

-- The loop of `buildBlocks`: the open block `entries[start:index]` and its size, the entries ahead.
pub split_from : List BlockEntry → ℕ → List BlockEntry → List (List BlockEntry)
split_from block size [] = []
split_from block size (e ∷ es) =
    let size' = size + length e.record_json in
    let block' = block ++ (e ∷ []) in
    let stays = goes_on block' size' es in
    let rest = split_from (if stays then block' else []) (if stays then size' else 0) es in
    emit stays block' rest

pub split_blocks : List BlockEntry → List (List BlockEntry)
split_blocks entries = split_from [] 0 entries

-- `json.Marshal` of a string, and `compressBlob`.
module _ (marshal : Bytes → Option Bytes) (compress : Bytes → Bytes) where
  positions_text : List ℕ → Bytes
  positions_text [] = []
  positions_text (p ∷ []) = itoa p
  positions_text (p ∷ (q ∷ ps)) = itoa p ++ (44 ∷ positions_text (q ∷ ps))

  pub entry_text : BlockEntry → Bytes → Bytes
  entry_text e key =
      91
      ∷ (key
          ++ (codes ",["
              ++ (positions_text e.positions ++ (codes "]," ++ (e.record_json ++ codes "]")))))

  pub with_rest : BlockEntry → Bool → Option Bytes → Option Bytes → Option Bytes
  with_rest e more none rest = none
  with_rest e more (some key) none = none
  with_rest e more (some key) (some rest) =
      some (entry_text e key ++ ((if more then 44 ∷ [] else []) ++ rest))

  pub entries_text : List BlockEntry → Option Bytes
  entries_text [] = some []
  entries_text (e ∷ es) = with_rest e (is_nonempty es) (marshal e.key) (entries_text es)

  pub close_block : Option Bytes → Option Bytes
  close_block none = none
  close_block (some text) = some (compress (91 ∷ (text ++ codes "]")))

  -- `none` is an error.
  pub encode_block : List BlockEntry → Option Bytes
  encode_block entries = close_block (entries_text entries)

  pub first_key_of : List BlockEntry → Bytes
  first_key_of [] = []
  first_key_of (e ∷ es) = e.sort_key

  pub add_block :
      List BlockEntry → Option Bytes → Option (List EncodedBlock) → Option (List EncodedBlock)
  add_block block none rest = none
  add_block block (some body) none = none
  add_block block (some body) (some rest) =
      some (record { first_key = first_key_of block; body = body } ∷ rest)

  pub encode_all : List (List BlockEntry) → Option (List EncodedBlock)
  encode_all [] = some []
  encode_all (block ∷ blocks) = add_block block (encode_block block) (encode_all blocks)

  -- `buildBlocks`.
  pub build_blocks : List BlockEntry → Option (List EncodedBlock)
  build_blocks entries = encode_all (split_blocks (sort_entries entries))

-- The entry of the key that `indexByKey` leads to gets the position and the record; a key that is
-- not seen before gets a new entry.
pub add_occurrence : Bytes → ℕ → Bytes → List BlockEntry → List BlockEntry
add_occurrence key position json [] =
    record {
      key = key;
      sort_key = block_sort_key key;
      positions = position ∷ [];
      record_json = json;
    }
    ∷ []
add_occurrence key position json (e ∷ es) =
    if same key e.key
    then record e { positions = e.positions ++ (position ∷ []); record_json = json } ∷ es
    else e ∷ add_occurrence key position json es

-- The loop of `blockEntries`, from the given position on.
pub entries_from : ℕ → List (Bytes × Bytes) → List BlockEntry → List BlockEntry
entries_from position [] entries = entries
entries_from position ((key, json) ∷ rows) entries =
    entries_from (suc position) rows (add_occurrence key position json entries)

-- `blockEntries` of the keys with their records, in source order.
pub block_entries : List (Bytes × Bytes) → List BlockEntry
block_entries rows = entries_from 0 rows []
