-- ===== src/Masterdata/Index/Table/Names.antt =====
-- The version of an entity's indexes names them.
use sekai_master_api.Prelude.{
  Bool, true, false, ◌&&◌, not, List, [], ◌∷◌, ◌≡◌, refl, arith, All, ==→eq,
}
use sekai_master_api.Prelude.Text.{Bytes}
use sekai_master_api.Prelude.Split.{join, cut_after, contains_byte, Lacks, split-join}
use sekai_master_api.Masterdata.RecordKey.{normalize_entity}
use sekai_master_api.Masterdata.Index.Table.{
  entity_index_table, find_indexes, entity_indexes, version_of, index_version,
  index_names_from_version, names_behind, index_layout_version,
}

lack_semicolon : List Bytes → Bool
lack_semicolon [] = true
lack_semicolon (s ∷ names) = not (contains_byte 59 s) && lack_semicolon names

-- Not the one empty name, which reads back as no name.
is_named : List Bytes → Bool
is_named ([] ∷ []) = false
is_named _ = true

rows_lack : List (Bytes × List Bytes) → Bool
unfolding lack_semicolon is_named
rows_lack [] = true
rows_lack (row ∷ rows) = (lack_semicolon row.1 && is_named row.1) && rows_lack rows

table_lacks : rows_lack entity_index_table ≡ true
unfolding rows_lack entity_index_table contains_byte
table_lacks = refl

Lacks-sound : (s : Bytes) → contains_byte 59 s ≡ false → Lacks 59 s
unfolding contains_byte
Lacks-sound [] h = tt
Lacks-sound (c ∷ s) h = (ground (arith, ==→eq c 59), Lacks-sound s (ground arith))

All-Lacks_sound : (names : List Bytes) → lack_semicolon names ≡ true → All (Lacks 59) names
unfolding lack_semicolon
All-Lacks_sound [] h = tt
All-Lacks_sound (s ∷ names) h = (Lacks-sound s (ground arith), All-Lacks_sound names (ground arith))

find_lacks :
    (name : Bytes) (rows : List (Bytes × List Bytes))
    → rows_lack rows ≡ true
    → (lack_semicolon (find_indexes name rows) ≡ true) × (is_named (find_indexes name rows) ≡ true)
unfolding rows_lack find_indexes
find_lacks name [] h = unfold lack_semicolon is_named in (refl, refl)
find_lacks name (row ∷ rows) h = ground (arith, find_lacks name rows)

-- Names in which no name has a semicolon are read back from their version.
read_back :
    (names : List Bytes)
    → lack_semicolon names ≡ true
    → is_named names ≡ true
    → names_behind (cut_after 58 (version_of names)) ≡ names
unfolding names_behind version_of index_layout_version cut_after is_named
read_back [] h g = refl
read_back ([] ∷ []) h g = cc
read_back ((c ∷ s) ∷ []) h g =
    unfold join in split-join 59 ((c ∷ s) ∷ []) (cc) (All-Lacks_sound ((c ∷ s) ∷ []) h)
read_back ([] ∷ q ∷ names) h g =
    unfold join in split-join 59 ([] ∷ q ∷ names) (cc) (All-Lacks_sound ([] ∷ q ∷ names) h)
read_back ((c ∷ s) ∷ q ∷ names) h g =
    unfold join in
    split-join 59 ((c ∷ s) ∷ q ∷ names) (cc) (All-Lacks_sound ((c ∷ s) ∷ q ∷ names) h)

-- For every entity the index names that are read from its index version are its indexes.
pub index_names-version :
    (entity : Bytes) → index_names_from_version (index_version entity) ≡ entity_indexes entity
unfolding index_names_from_version index_version
index_names-version entity =
    let (lacks, named) = find_lacks (normalize_entity entity) entity_index_table table_lacks in
    unfold entity_indexes in read_back _ lacks named
