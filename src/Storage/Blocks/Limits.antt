-- ===== src/Storage/Blocks/Limits.antt =====
-- How `buildBlocks` divides the sorted entries.
use sekai_master_api.Prelude.{
  ℕ, ◌+◌, ◌<◌, Bool, true, false, List, [], ◌∷◌, ◌++◌, length, if◌then◌else◌, ◌≡◌, refl, ◌∙◌, ap,
  arith, ltb→lt, All, append_assoc, append-nil, &&-true,
}
use sekai_master_api.Storage.Blocks.{
  BlockEntry, master_block_max_records, master_block_max_bytes, is_nonempty, goes_on, emit,
  split_from, split_blocks,
}

abbrev pub flatten : List (List BlockEntry) → List BlockEntry
flatten [] = []
flatten (b ∷ bs) = b ++ flatten bs

abbrev pub total : List BlockEntry → ℕ
total [] = 0
total (e ∷ es) = length e.record_json + total es

total-append :
    (es : List BlockEntry) (e : BlockEntry)
    → total (es ++ (e ∷ [])) ≡ total es + length e.record_json
total-append [] e = omega arith
total-append (f ∷ es) e = omega (arith, total-append es e)

ends : (block : List BlockEntry) (size : ℕ) → goes_on block size [] ≡ false
unfolding goes_on is_nonempty
ends block size = ground arith

flat_one :
    (stays : Bool) (block : List BlockEntry) → stays ≡ false → flatten (emit stays block []) ≡ block
unfolding emit
flat_one true block h = absurd cc
flat_one false block h = append-nil block

-- The entries `f ∷ es` are ahead.
abbrev IsFlat : BlockEntry → List BlockEntry → Type 0
IsFlat f es =
    (block : List BlockEntry) (size : ℕ)
    → flatten (split_from block size (f ∷ es)) ≡ block ++ (f ∷ es)

flat_step :
    (stays : Bool) (block : List BlockEntry) (size : ℕ) (f : BlockEntry) (es : List BlockEntry)
    → IsFlat f es
    → flatten (
        emit stays block
          (split_from (if stays then block else []) (if stays then size else 0) (f ∷ es)))
      ≡ block ++ (f ∷ es)
unfolding emit
flat_step true block size f es later = later block size
flat_step false block size f es later = ap (λ bs. block ++ bs) (later [] 0)

split-IsFlat : (e : BlockEntry) (es : List BlockEntry) → IsFlat e es
unfolding split_from
split-IsFlat e [] block size =
    flat_one (goes_on (block ++ (e ∷ [])) (size + length e.record_json) []) (block ++ (e ∷ []))
      (ends (block ++ (e ∷ [])) (size + length e.record_json))
split-IsFlat e (f ∷ es) block size =
    flat_step (goes_on (block ++ (e ∷ [])) (size + length e.record_json) (f ∷ es))
      (block ++ (e ∷ [])) (size + length e.record_json) f es (split-IsFlat f es)
    ∙ append_assoc block (e ∷ []) (f ∷ es)

-- The blocks of `buildBlocks` hold all of its entries, each once and in their order.
pub split_blocks_partition : (entries : List BlockEntry) → flatten (split_blocks entries) ≡ entries
unfolding split_blocks split_from
split_blocks_partition [] = refl
split_blocks_partition (e ∷ es) = split-IsFlat e es [] 0

-- Up to its last entry, a block is below both limits.
abbrev pub Fits : List BlockEntry → Type 0
Fits block =
    (front : List BlockEntry) × (last : BlockEntry) × (block ≡ front ++ (last ∷ []))
    × (length front < master_block_max_records)
    × (total front < master_block_max_bytes)

abbrev IsOpen : List BlockEntry → ℕ → Type 0
IsOpen block size =
    (size ≡ total block)
    × (length block < master_block_max_records)
    × (size < master_block_max_bytes)

goes_on-below :
    (block : List BlockEntry) (size : ℕ) (es : List BlockEntry)
    → goes_on block size es ≡ true
    → (length block < master_block_max_records) × (size < master_block_max_bytes)
unfolding goes_on
goes_on-below block size es h =
    let (a, b) = &&-true _ _ h in (ltb→lt _ _ a, ltb→lt _ _ (&&-true _ _ b).0)

emit-Fits :
    (stays : Bool) (block : List BlockEntry) (size : ℕ) (es : List BlockEntry)
    → Fits block
    → size ≡ total block
    → (stays ≡ true → (length block < master_block_max_records) × (size < master_block_max_bytes))
    → ((b : List BlockEntry) (n : ℕ) → IsOpen b n → All Fits (split_from b n es))
    → All Fits
        (emit stays block (split_from (if stays then block else []) (if stays then size else 0) es))
unfolding emit
emit-Fits true block size es fits e below later =
    later block size (e, (below refl).0, (below refl).1)
emit-Fits false block size es fits e below later =
    (fits, later [] 0 (refl, omega arith, omega arith))

split-Fits :
    (es : List BlockEntry) (block : List BlockEntry) (size : ℕ)
    → IsOpen block size
    → All Fits (split_from block size es)
unfolding split_from
split-Fits [] block size h = _
split-Fits (e ∷ es) block size (sized, few, small) =
    emit-Fits (goes_on (block ++ (e ∷ [])) (size + length e.record_json) es) (block ++ (e ∷ []))
      (size + length e.record_json) es (block, e, refl, few, omega (arith, sized, small))
      (omega (arith, total-append block e, sized))
      (goes_on-below (block ++ (e ∷ [])) (size + length e.record_json) es) (split-Fits es)

-- Each block of `buildBlocks` has an entry, and without its last entry it has fewer than 32
-- records and fewer than 65,536 bytes of them.
pub split_blocks_limits : (entries : List BlockEntry) → All Fits (split_blocks entries)
unfolding split_blocks
split_blocks_limits entries = split-Fits entries [] 0 (refl, omega arith, omega arith)
