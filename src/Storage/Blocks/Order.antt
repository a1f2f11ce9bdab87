-- ===== src/Storage/Blocks/Order.antt =====
-- The blocks that `buildBlocks` gives for its entries.
use mathlib.Core.List.{Perm}
use sekai_master_api.Prelude.{Option, some, List, [], ◌∷◌, ◌++◌, ◌≡◌, refl, All, if◌then◌else◌}
use sekai_master_api.Prelude.Text.{Bytes, codes, less}
use sekai_master_api.Prelude.Sort.{sort-perm, IsOrdered, sort-IsOrdered, less_asym}
use sekai_master_api.Storage.Blocks.{
  BlockEntry, EncodedBlock, before_entry, sort_entries, split_blocks, encode_block, encode_all,
  build_blocks, entry_text, entries_text, with_rest, close_block, first_key_of, add_block,
  is_nonempty,
}
use sekai_master_api.Storage.Blocks.Limits.{
  flatten, split_blocks_partition, Fits, split_blocks_limits,
}

-- The sort keys of the entries, in their order.
abbrev pub sort_keys : List BlockEntry → List Bytes
sort_keys [] = []
sort_keys (e ∷ es) = e.sort_key ∷ sort_keys es

sort_keys-IsOrdered :
    (es : List BlockEntry) → IsOrdered before_entry es → IsOrdered less (sort_keys es)
sort_keys-IsOrdered [] h = tt
sort_keys-IsOrdered (e ∷ []) h = tt
sort_keys-IsOrdered (e ∷ (f ∷ es)) h = (h.0, sort_keys-IsOrdered (f ∷ es) h.1)

module _ (marshal : Bytes → Option Bytes) (compress : Bytes → Bytes) where
  -- Block by block: the group has a first entry, whose sort key is the block's first key, and the
  -- block's body encodes the group.
  abbrev pub AreEncoded : List (List BlockEntry) → List EncodedBlock → Type 0
  AreEncoded [] [] = Unit
  AreEncoded [] (block ∷ blocks) = ⊥
  AreEncoded (group ∷ groups) [] = ⊥
  AreEncoded (group ∷ groups) (block ∷ blocks) =
      ((e : BlockEntry) × (rest : List BlockEntry) × (group ≡ e ∷ rest)
        × (block.first_key ≡ e.sort_key))
      × (encode_block marshal compress group ≡ some block.body)
      × AreEncoded groups blocks

  -- The blocks hold these entries, in ascending order of the bytes of their sort keys.
  abbrev pub AreSorted : List BlockEntry → List EncodedBlock → Type 0
  AreSorted entries blocks =
      (groups : List (List BlockEntry)) × AreEncoded groups blocks
      × Perm (flatten groups) entries
      × IsOrdered less (sort_keys (flatten groups))

  module _ (marshals : (b : Bytes) → (text : Bytes) × (marshal b ≡ some text)) where
    entries-text :
        (es : List BlockEntry) → (text : Bytes) × (entries_text marshal compress es ≡ some text)
    unfolding entries_text with_rest
    entries-text [] = ([], refl)
    entries-text (e ∷ es) =
        let (key, f) = marshals e.key in
        let (rest, g) = entries-text es in
        (
          entry_text marshal compress e key ++ ((if is_nonempty es then 44 ∷ [] else []) ++ rest),
          rw (f, g) refl,
        )

    group-encode :
        (es : List BlockEntry) → (body : Bytes) × (encode_block marshal compress es ≡ some body)
    unfolding encode_block close_block
    group-encode es =
        let (text, f) = entries-text es in (compress (91 ∷ (text ++ codes "]")), rw f refl)

    first_entry :
        (group : List BlockEntry)
        → Fits group
        → (e : BlockEntry) × (rest : List BlockEntry) × (group ≡ e ∷ rest)
          × (first_key_of marshal compress group ≡ e.sort_key)
    unfolding first_key_of
    first_entry [] ([], last, e, few, small) = absurd cc
    first_entry [] (x ∷ front, last, e, few, small) = absurd cc
    first_entry (e ∷ rest) h = (e, rest, refl, refl)

    encode_all-AreEncoded :
        (groups : List (List BlockEntry))
        → All Fits groups
        → (blocks : List EncodedBlock) × (encode_all marshal compress groups ≡ some blocks)
          × AreEncoded groups blocks
    unfolding encode_all add_block
    encode_all-AreEncoded [] h = ([], refl, tt)
    encode_all-AreEncoded (group ∷ groups) h =
        let (body, f) = group-encode group in
        let (blocks, g, k) = encode_all-AreEncoded groups h.1 in
        (
          record { first_key = first_key_of marshal compress group; body = body } ∷ blocks,
          rw (f, g) refl,
          (first_entry group h.0, f, k),
        )

    -- Where `json.Marshal` gives a text for every key, `buildBlocks` gives blocks: block by block
    -- the first key is the sort key of the block's first entry and the body encodes the block's
    -- entries, all blocks together hold the given entries, each as often as it was given, and from
    -- the first block to the last no sort key is, as bytes, below the one before it.
    pub build_blocks-AreSorted :
        (entries : List BlockEntry)
        → (blocks : List EncodedBlock) × (build_blocks marshal compress entries ≡ some blocks)
          × AreSorted entries blocks
    unfolding build_blocks sort_entries
    build_blocks-AreSorted entries =
        let sorted = sort_entries entries in
        let (blocks, f, k) =
          encode_all-AreEncoded (split_blocks sorted) (split_blocks_limits sorted) in
        let whole = split_blocks_partition sorted in
        (
          blocks,
          f,
          (
            split_blocks sorted,
            k,
            rw whole (sort-perm before_entry entries),
            rw whole (
                sort_keys-IsOrdered sorted
                  (sort-IsOrdered before_entry (λ e f. less_asym e.sort_key f.sort_key) entries)),
          ),
        )
