-- ===== src/Storage/Examples.antt =====
-- Record keys and blocks at concrete values.
use sekai_master_api.Prelude.{
  ℕ, true, Option, none, some, ◌++◌, List, [], ◌∷◌, ◌≡◌, ◌≢◌, refl, replicate, length, All,
}
use sekai_master_api.Prelude.Text.{Bytes, codes, same, to_lower, trim_space}
use sekai_master_api.Masterdata.Json.{Fields, Runtime}
use sekai_master_api.Masterdata.RecordKey.{uses_composite_key}
use sekai_master_api.Storage.Keyer.{RecordKeyer, fallback_key, Fed, fed_record, fed_body, keys}
use sekai_master_api.Masterdata.RecordKey.Raw.{Decoder}
use sekai_master_api.Storage.Keyer.Fresh.{fallback_key_fresh}
use sekai_master_api.Storage.Blocks.{EncodedBlock, build_blocks, split_blocks, block_entries}
use sekai_master_api.Storage.Blocks.Order.{AreSorted, build_blocks-AreSorted}
use sekai_master_api.Storage.Blocks.Limits.{
  flatten, Fits, split_blocks_limits, split_blocks_partition,
}
use sekai_master_api.Storage.Blocks.Grouping.{
  positions_at, record_at, positions_under, last_under, block_entries_group,
}

abbrev go : Runtime ℕ
go = record {
  finite = λ f. true;
  format64 = λ f. [];
  format32 = λ f. [];
  parse_float = λ s. none;
  print = λ v. [];
  sha256_hex = λ b. replicate 64 97;
}

abbrev keyer : RecordKeyer
keyer = record { entity = codes "resourceboxes"; fallback_occurrences = [] }

-- Two records without the fields of a composite key, the second as its body.
abbrev records : List (Fed ℕ)
records = fed_record Fields.end (codes "{}") ∷ (fed_body (codes "{}") ∷ [])

-- It decodes only the body without fields.
abbrev json : Decoder ℕ
json = record { raw_fields = λ body. some []; raw_id = λ body. some []; decode = λ body. none }

uses : uses_composite_key keyer.entity ≡ true
unfolding uses_composite_key same to_lower trim_space
uses = refl

digest : (b : Bytes) → length (go.sha256_hex b) ≡ 64
digest b = refl

fallback_key_fresh_example :
    All
      (λ k. k ≢ (fallback_key go keyer (codes "{}")).1)
      (keys go json (fallback_key go keyer (codes "{}")).0 records)
fallback_key_fresh_example = fallback_key_fresh go digest json keyer (codes "{}") records uses

abbrev rows : List (Bytes × Bytes)
rows = (codes "7", codes "a") ∷ ((codes "3", codes "b") ∷ ((codes "7", codes "c") ∷ []))

split_blocks_limits_example : All Fits (split_blocks (block_entries rows))
split_blocks_limits_example = split_blocks_limits (block_entries rows)

split_blocks_partition_example : flatten (split_blocks (block_entries rows)) ≡ block_entries rows
split_blocks_partition_example = split_blocks_partition (block_entries rows)

block_entries_group_example :
    (positions_at (codes "7") (block_entries rows) ≡ positions_under (codes "7") 0 rows)
    × (record_at (codes "7") (block_entries rows) ≡ last_under (codes "7") rows none)
block_entries_group_example = block_entries_group (codes "7") rows

abbrev quoted : Bytes → Option Bytes
quoted text = some (34 ∷ (text ++ (34 ∷ [])))

-- The entries of the keys 7 and 3.
build_blocks-AreSorted_example :
    (blocks : List EncodedBlock) × (build_blocks quoted (λ text. text) (block_entries rows)
      ≡ some blocks)
    × AreSorted quoted (λ text. text) (block_entries rows) blocks
build_blocks-AreSorted_example =
    build_blocks-AreSorted quoted (λ text. text) (λ text. (_, refl)) (block_entries rows)
