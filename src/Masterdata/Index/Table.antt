-- ===== src/Masterdata/Index/Table.antt =====
-- The table of relation indexes of index.go, and the versions that name them.
pub mod Names
use sekai_master_api.Prelude.{
  Bool, true, false, Option, none, some, List, [], ◌∷◌, ◌++◌, if◌then◌else◌,
}
use sekai_master_api.Prelude.Text.{Bytes, codes, same}
use sekai_master_api.Prelude.Split.{split, join, cut_after}
use sekai_master_api.Masterdata.RecordKey.{normalize_entity}

index_layout_version : Bytes
index_layout_version = codes "1"

-- The table of index definitions, in the order of the source.
entity_index_table : List (Bytes × List Bytes)
entity_index_table =
    (codes "cardepisodes", codes "cardId" ∷ [])
    ∷ (codes "charactermissionv2parametergroups", codes "id" ∷ [])
    ∷ (codes "characterranks", codes "characterId" ∷ [])
    ∷ (codes "costume3dgroups", codes "groupId" ∷ [])
    ∷ (codes "eventcardbonuslimits", codes "eventId" ∷ [])
    ∷ (codes "eventcards", codes "cardId" ∷ codes "eventId" ∷ [])
    ∷ (codes "eventdeckbonuses", codes "eventId" ∷ [])
    ∷ (codes "eventhonorbonuses", codes "eventId" ∷ [])
    ∷ (codes "eventmusics", codes "eventId" ∷ [])
    ∷ (codes "eventmysekaifixturegamecharacterperformancebonuslimits", codes "eventId" ∷ [])
    ∷ (codes "eventstories", codes "eventId" ∷ [])
    ∷ (codes "eventstoryunits", codes "eventStoryId" ∷ [])
    ∷ (codes "gachas", codes "gachaPickups.cardId" ∷ [])
    ∷ (codes "musiccategories", codes "musicId" ∷ [])
    ∷ (codes "musicdifficulties", codes "musicId" ∷ [])
    ∷ (codes "musicoriginals", codes "musicId" ∷ [])
    ∷ (codes "musictags", codes "musicId" ∷ [])
    ∷ (codes "musicvocals", codes "musicId" ∷ [])
    ∷ (
      codes "mysekaiblueprintmysekaimaterialcosts",
      codes "mysekaiBlueprintId" ∷ codes "mysekaiMaterialId" ∷ [],
    )
    ∷ (codes "mysekaiblueprints", codes "mysekaiCraftType,craftTargetId" ∷ [])
    ∷ (codes "mysekaifixturegamecharactergroups", codes "groupId" ∷ [])
    ∷ (codes "mysekaifixtureonlydisassemblematerials", codes "mysekaiFixtureId" ∷ [])
    ∷ (codes "mysekaifixturetags", codes "mysekaiFixtureTagType" ∷ [])
    ∷ (codes "mysekaimaterialgamecharacterrelations", codes "mysekaiMaterialId" ∷ [])
    ∷ (codes "mysekaishopcosts", codes "mysekaiShopId" ∷ [])
    ∷ (codes "levels", codes "levelType" ∷ [])
    ∷ (
      codes "resourceboxdetails",
      codes "resourceBoxId,resourceBoxPurpose" ∷ codes "resourceType,resourceId" ∷ [],
    )
    ∷ (codes "resourceboxes", codes "id" ∷ codes "details[resourceType+resourceId]" ∷ [])
    ∷ (codes "virtuallivepamphlets", codes "virtualLiveId" ∷ [])
    ∷ (codes "virtuallivetickets", codes "virtualLiveId" ∷ [])
    ∷ []

find_indexes : Bytes → List (Bytes × List Bytes) → List Bytes
find_indexes name [] = []
find_indexes name ((entity, indexes) ∷ rest) =
    if same entity name then indexes else find_indexes name rest

-- `EntityIndexes`; the empty list stands for nil.
unfoldable pub entity_indexes : Bytes → List Bytes
unfolding find_indexes entity_index_table normalize_entity
entity_indexes entity = find_indexes (normalize_entity entity) entity_index_table

unfoldable pub is_among : Bytes → List Bytes → Bool
is_among name [] = false
is_among name (x ∷ xs) = if same x name then true else is_among name xs

unfoldable pub has_index : Bytes → Bytes → Bool
unfolding entity_indexes is_among
has_index entity index = is_among index (entity_indexes entity)

version_of : List Bytes → Bytes
unfolding index_layout_version
version_of [] = []
version_of (name ∷ names) = index_layout_version ++ 58 ∷ join 59 (name ∷ names)

unfoldable pub index_version : Bytes → Bytes
unfolding version_of entity_indexes
index_version entity = version_of (entity_indexes entity)

names_behind : Option Bytes → List Bytes
names_behind none = []
names_behind (some []) = []
names_behind (some (c ∷ s)) = split 59 (c ∷ s)

unfoldable pub index_names_from_version : Bytes → List Bytes
unfolding names_behind
index_names_from_version version = names_behind (cut_after 58 version)
