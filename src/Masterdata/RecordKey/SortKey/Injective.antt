-- ===== src/Masterdata/RecordKey/SortKey/Injective.antt =====
-- Different record keys have different block sort keys.
use sekai_master_api.Prelude.{
  ℕ, zero, suc, ◌-◌, true, [], ◌∷◌, ◌++◌, length, replicate, ◌≡◌, arith, inl, inr, Bool-cases, sym,
  ◌∙◌,
}
use sekai_master_api.Prelude.Text.{Bytes}
use sekai_master_api.Masterdata.RecordKey.SortKey.{is_numeric_key, block_sort_key}
use sekai_master_api.Masterdata.RecordKey.SortKey.Order.{numeric_key, other_key}

cons_eq : (a b : ℕ) (s t : Bytes) → a ∷ s ≡ b ∷ t → s ≡ t
cons_eq a b s t h = cc

-- A numeric key is no zero in front of a text that is not empty, and it is not empty.
not_padded :
    (n : ℕ) (k j : Bytes)
    → is_numeric_key k ≡ true
    → is_numeric_key j ≡ true
    → k ≡ 48 ∷ (replicate n 48 ++ j)
    → ⊥
unfolding is_numeric_key
not_padded zero k [] hk hj e = cc
not_padded zero k (c ∷ j) hk hj e = ground (arith)
not_padded (suc n) k j hk hj e = ground arith

pad_injective :
    (a b : ℕ) (k j : Bytes)
    → is_numeric_key k ≡ true
    → is_numeric_key j ≡ true
    → replicate a 48 ++ k ≡ replicate b 48 ++ j
    → k ≡ j
pad_injective zero zero k j hk hj e = e
pad_injective zero (suc b) k j hk hj e = absurd (not_padded b k j hk hj e)
pad_injective (suc a) zero k j hk hj e = absurd (not_padded a j k hj hk (sym e))
pad_injective (suc a) (suc b) k j hk hj e = pad_injective a b k j hk hj (cons_eq 48 48 _ _ e)

-- Keys with the same block sort key are the same key.
pub block_sort_key_injective : (k j : Bytes) → block_sort_key k ≡ block_sort_key j → k ≡ j
block_sort_key_injective k j e = elim (Bool-cases (is_numeric_key k)) [
  | inl hk ↦ elim (Bool-cases (is_numeric_key j)) [
    | inl hj ↦
        pad_injective (20 - length k) (20 - length j) k j hk hj
          (cons_eq 48 48 _ _ (sym (numeric_key k hk) ∙ e ∙ numeric_key j hj))
    | inr hj ↦ ground (arith, sym (numeric_key k hk) ∙ e ∙ other_key j hj)
  ]
  | inr hk ↦ elim (Bool-cases (is_numeric_key j)) [
    | inl hj ↦ ground (arith, sym (other_key k hk) ∙ e ∙ numeric_key j hj)
    | inr hj ↦ cons_eq 49 49 _ _ (sym (other_key k hk) ∙ e ∙ other_key j hj)
  ]
]
