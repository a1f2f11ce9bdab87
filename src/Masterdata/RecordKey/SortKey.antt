-- ===== src/Masterdata/RecordKey/SortKey.antt =====
-- `BlockSortKey` of record_key.go: the key that a record's block is sorted and located by.
pub mod Order
pub mod Injective
use sekai_master_api.Prelude.{ℕ, ◌+◌, ◌-◌, Bool, true, false, ◌&&◌, ◌||◌, List, [], ◌∷◌, ◌++◌}
use sekai_master_api.Prelude.{ltb, leb, ◌==◌, if◌then◌else◌, length, replicate, ◌≡◌, refl, not}
use sekai_master_api.Prelude.Text.{Bytes, codes}
use sekai_master_api.Masterdata.Json.{all_digits}

abbrev pub max_decimal_sort_key_digits : ℕ
max_decimal_sort_key_digits = 20

-- More than one byte, the first of them the digit 0.
leading_zero : Bytes → Bool
leading_zero [] = false
leading_zero (c ∷ s) = ltb 0 (length s) && c == 48

unfoldable pub is_canonical_decimal : Bytes → Bool
unfolding leading_zero all_digits
is_canonical_decimal text = if length text == 0 || leading_zero text then false else all_digits text

-- The keys that the first case of `BlockSortKey` is for.
unfoldable pub is_numeric_key : Bytes → Bool
unfolding is_canonical_decimal
is_numeric_key key = is_canonical_decimal key && leb (length key) max_decimal_sort_key_digits

unfoldable pub block_sort_key : Bytes → Bytes
unfolding is_numeric_key
block_sort_key key =
    if is_numeric_key key
    then 48 ∷ (replicate (max_decimal_sort_key_digits - length key) 48 ++ key)
    else 49 ∷ key

sort_key_test : block_sort_key (codes "42") ≡ codes "000000000000000000042"
unfolding block_sort_key
sort_key_test = refl

sort_key_other : block_sort_key (codes "042") ≡ codes "1042"
unfolding block_sort_key
sort_key_other = refl
