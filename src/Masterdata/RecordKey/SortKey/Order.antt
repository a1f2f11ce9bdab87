-- ===== src/Masterdata/RecordKey/SortKey/Order.antt =====
-- The order of block sort keys.
use sekai_master_api.Prelude.{
  ℕ, zero, suc, ◌+◌, ◌-◌, ◌*◌, ◌≤◌, ◌<◌, true, false, [], ◌∷◌, ◌++◌, ltb, length, replicate,
  length-append, length-replicate, ◌≡◌, refl, arith, sym, ◌∙◌,
}
use sekai_master_api.Prelude.Text.{Bytes, less}
use sekai_master_api.Prelude.Decimal.{value}
use sekai_master_api.Masterdata.Json.{all_digits}
use sekai_master_api.Masterdata.RecordKey.SortKey.{is_numeric_key, block_sort_key}

-- A smaller number in front stays smaller, whatever digits follow.
value_mono :
    (s t : Bytes) (a b : ℕ)
    → length s ≡ length t
    → all_digits s ≡ true
    → all_digits t ≡ true
    → a < b
    → value a s < value b t
unfolding value all_digits
value_mono [] [] a b e hs ht h = h
value_mono [] (d ∷ t) a b e hs ht h = absurd (omega arith)
value_mono (c ∷ s) [] a b e hs ht h = absurd (omega arith)
value_mono (c ∷ s) (d ∷ t) a b e hs ht h =
    ground (arith, value_mono s t (a * 10 + (c - 48)) (b * 10 + (d - 48)))

-- On digits of one length the order of texts is the order of numbers.
less-value :
    (s t : Bytes) (a : ℕ)
    → length s ≡ length t
    → all_digits s ≡ true
    → all_digits t ≡ true
    → less s t ≡ ltb (value a s) (value a t)
unfolding value less all_digits
less-value [] [] a e hs ht = ground arith
less-value [] (d ∷ t) a e hs ht = absurd (omega arith)
less-value (c ∷ s) [] a e hs ht = absurd (omega arith)
less-value (c ∷ s) (d ∷ t) a e hs ht = ground (
  arith,
  less-value s t (a * 10 + (c - 48)),
  value_mono s t (a * 10 + (c - 48)) (a * 10 + (d - 48)),
  value_mono t s (a * 10 + (d - 48)) (a * 10 + (c - 48)),
)

value-pad : (n : ℕ) (s : Bytes) → value 0 (replicate n 48 ++ s) ≡ value 0 s
unfolding value
value-pad zero s = refl
value-pad (suc n) s = value-pad n s

all_digits-pad : (n : ℕ) (s : Bytes) → all_digits s ≡ true → all_digits (replicate n 48 ++ s) ≡ true
unfolding all_digits
all_digits-pad zero s h = h
all_digits-pad (suc n) s h = all_digits-pad n s h

pub numeric_digits : (k : Bytes) → is_numeric_key k ≡ true → all_digits k ≡ true
unfolding is_numeric_key
numeric_digits k h = ground arith

pub numeric-length-le : (k : Bytes) → is_numeric_key k ≡ true → length k ≤ 20
unfolding is_numeric_key
numeric-length-le k h = ground arith

length-pad : (k : Bytes) → is_numeric_key k ≡ true → length (replicate (20 - length k) 48 ++ k) ≡ 20
length-pad k h = omega (
  arith,
  length-append (replicate {A = ℕ} (20 - length k) 48) k,
  length-replicate {A = ℕ} (20 - length k) 48,
  numeric-length-le k h,
)

pub numeric_key :
    (k : Bytes)
    → is_numeric_key k ≡ true
    → block_sort_key k ≡ 48 ∷ (replicate (20 - length k) 48 ++ k)
unfolding block_sort_key
numeric_key k h = rw h

pub other_key : (k : Bytes) → is_numeric_key k ≡ false → block_sort_key k ≡ 49 ∷ k
unfolding block_sort_key
other_key k h = rw h

-- Of two canonical decimal keys of at most 20 digits, the sort key of one is the smaller exactly
-- when its number is the smaller.
pub block_sort_key_numeric :
    (k j : Bytes)
    → is_numeric_key k ≡ true
    → is_numeric_key j ≡ true
    → less (block_sort_key k) (block_sort_key j) ≡ ltb (value 0 k) (value 0 j)
block_sort_key_numeric k j hk hj =
    rw (numeric_key k hk, numeric_key j hj)
      (unfold less in
        less-value (replicate (20 - length k) 48 ++ k) (replicate (20 - length j) 48 ++ j) 0
          (length-pad k hk ∙ sym (length-pad j hj))
          (all_digits-pad (20 - length k) k (numeric_digits k hk))
          (all_digits-pad (20 - length j) j (numeric_digits j hj))
        ∙ simp value-pad)

-- The sort key of a canonical decimal key of at most 20 digits is before that of every other key.
pub numeric_before_other :
    (k j : Bytes)
    → is_numeric_key k ≡ true
    → is_numeric_key j ≡ false
    → less (block_sort_key k) (block_sort_key j) ≡ true
numeric_before_other k j hk hj = rw (numeric_key k hk, other_key j hj) (unfold less in refl)
