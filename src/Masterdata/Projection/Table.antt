-- ===== src/Masterdata/Projection/Table.antt =====
-- The fields of the projections: entityProjections, ProjectionFields and ProjectionVersion.
use sekai_master_api.Prelude.{List, [], ◌∷◌, ◌++◌, if◌then◌else◌}
use sekai_master_api.Prelude.Text.{Bytes, codes, same}
use sekai_master_api.Prelude.Split.{join}
use sekai_master_api.Masterdata.RecordKey.{normalize_entity}

abbrev projection_layout_version : Bytes
projection_layout_version = codes "1"

-- `entityProjections`, in the order of the source.
entity_projections : List (Bytes × List Bytes)
entity_projections =
    (
      codes "cards",
      codes "id"
          ∷ codes "seq"
          ∷ codes "characterId"
          ∷ codes "cardRarityType"
          ∷ codes "attr"
          ∷ codes "supportUnit"
          ∷ codes "skillId"
          ∷ codes "cardSkillName"
          ∷ codes "cardSupplyId"
          ∷ codes "prefix"
          ∷ codes "assetbundleName"
          ∷ codes "gachaPhrase"
          ∷ codes "flavorText"
          ∷ codes "releaseAt"
          ∷ codes "releastAt"
          ∷ codes "publishedAt"
          ∷ codes "startAt"
          ∷ codes "archivePublishedAt"
          ∷ codes "initialSpecialTrainingStatus"
          ∷ [],
    )
    ∷ (
      codes "costume3dgroups",
      codes "groupId"
          ∷ codes "colorId"
          ∷ codes "costume3dColorId"
          ∷ codes "partType"
          ∷ codes "costume3dPartType"
          ∷ codes "seq"
          ∷ codes "name"
          ∷ codes "designer"
          ∷ codes "characterId"
          ∷ codes "rarity"
          ∷ codes "costume3dRarity"
          ∷ codes "type"
          ∷ codes "costume3dType"
          ∷ codes "assetbundleName"
          ∷ codes "publishedAt"
          ∷ [],
    )
    ∷ (
      codes "costume3ds",
      codes "id"
          ∷ codes "groupId"
          ∷ codes "costume3dGroupId"
          ∷ codes "colorId"
          ∷ codes "costume3dColorId"
          ∷ codes "partType"
          ∷ codes "costume3dPartType"
          ∷ codes "seq"
          ∷ codes "name"
          ∷ codes "designer"
          ∷ codes "characterId"
          ∷ codes "rarity"
          ∷ codes "costume3dRarity"
          ∷ codes "type"
          ∷ codes "costume3dType"
          ∷ codes "assetbundleName"
          ∷ codes "publishedAt"
          ∷ [],
    )
    ∷ (codes "events", codes "id" ∷ codes "startAt" ∷ codes "closedAt" ∷ [])
    ∷ (
      codes "gachas",
      codes "id"
          ∷ codes "gachaType"
          ∷ codes "name"
          ∷ codes "assetbundleName"
          ∷ codes "startAt"
          ∷ codes "endAt"
          ∷ [],
    )
    ∷ (
      codes "musics",
      codes "id" ∷ codes "title" ∷ codes "assetbundleName" ∷ codes "publishedAt" ∷ [],
    )
    ∷ (
      codes "musicsoundtracks",
      codes "id"
          ∷ codes "seq"
          ∷ codes "title"
          ∷ codes "musicSoundTrackCategoryId"
          ∷ codes "assetbundleName"
          ∷ codes "assetbundleFileName"
          ∷ [],
    )
    ∷ (
      codes "mysekaifixtures",
      codes "id"
          ∷ codes "seq"
          ∷ codes "name"
          ∷ codes "pronunciation"
          ∷ codes "mysekaiFixtureType"
          ∷ codes "mysekaiFixtureMainGenreId"
          ∷ codes "mysekaiFixtureSubGenreId"
          ∷ codes "mysekaiSettableLayoutType"
          ∷ codes "gridSize"
          ∷ codes "mysekaiFixtureTagGroup"
          ∷ codes "assetbundleName"
          ∷ [],
    )
    ∷ (
      codes "mysekaimaterials",
      codes "id"
          ∷ codes "seq"
          ∷ codes "name"
          ∷ codes "pronunciation"
          ∷ codes "description"
          ∷ codes "mysekaiMaterialType"
          ∷ codes "mysekaiMaterialRarityType"
          ∷ codes "iconAssetbundleName"
          ∷ codes "mysekaiSiteIds"
          ∷ [],
    )
    ∷ (
      codes "mysekaimusicrecords",
      codes "id" ∷ codes "mysekaiMusicTrackType" ∷ codes "externalId" ∷ [],
    )
    ∷ (
      codes "stamps",
      codes "id"
          ∷ codes "seq"
          ∷ codes "stampType"
          ∷ codes "name"
          ∷ codes "assetbundleName"
          ∷ codes "characterId1"
          ∷ codes "characterId2"
          ∷ codes "characterId3"
          ∷ codes "characterId4"
          ∷ codes "characterId5"
          ∷ codes "gameCharacterUnitId"
          ∷ codes "archivePublishedAt"
          ∷ codes "description"
          ∷ [],
    )
    ∷ (
      codes "tips",
      codes "id"
          ∷ codes "title"
          ∷ codes "assetbundleName"
          ∷ codes "fromUserRank"
          ∷ codes "toUserRank"
          ∷ [],
    )
    ∷ (
      codes "mysekaishops",
      codes "id"
          ∷ codes "seq"
          ∷ codes "mysekaiShopType"
          ∷ codes "resourceBoxId"
          ∷ codes "mysekaiShopExchangeLimitType"
          ∷ codes "mysekaiShopExchangeLimitValue"
          ∷ [],
    )
    ∷ []

find_fields : Bytes → List (Bytes × List Bytes) → List Bytes
find_fields name [] = []
find_fields name ((entity, fields) ∷ rest) =
    let others = find_fields name rest in if same entity name then fields else others

-- `ProjectionFields`; the empty list stands for nil.
unfoldable pub projection_fields : Bytes → List Bytes
unfolding find_fields entity_projections normalize_entity
projection_fields entity = find_fields (normalize_entity entity) entity_projections

version_of_fields : List Bytes → Bytes
version_of_fields [] = []
version_of_fields (field ∷ fields) = projection_layout_version ++ 58 ∷ join 44 (field ∷ fields)

-- `ProjectionVersion`.
unfoldable pub projection_version : Bytes → Bytes
unfolding version_of_fields projection_fields
projection_version entity = version_of_fields (projection_fields entity)
