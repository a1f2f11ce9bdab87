-- ===== src/Storage/Blocks/Grouping.antt =====
-- What `blockEntries` keeps of the records of each key.
use sekai_master_api.Prelude.{
  ℕ, suc, true, false, Option, none, some, List, [], ◌∷◌, ◌++◌, if◌then◌else◌, ◌≡◌, refl, sym, ◌∙◌,
  ap, inl, inr, Bool-cases, append_assoc, append-nil, false≢true,
}
use sekai_master_api.Prelude.Text.{Bytes, same, same_refl, same→eq}
use sekai_master_api.Storage.Blocks.{BlockEntry, add_occurrence, entries_from, block_entries}

-- The positions at which the key stands, counted from the given one.
abbrev pub positions_under : Bytes → ℕ → List (Bytes × Bytes) → List ℕ
positions_under k position [] = []
positions_under k position ((key, json) ∷ rows) =
    (if same key k then position ∷ [] else []) ++ positions_under k (suc position) rows

-- The record stored last under the key.
abbrev pub last_under : Bytes → List (Bytes × Bytes) → Option Bytes → Option Bytes
last_under k [] before = before
last_under k ((key, json) ∷ rows) before =
    last_under k rows (if same key k then some json else before)

-- The positions and the record of the first entry with the key.
abbrev pub positions_at : Bytes → List BlockEntry → List ℕ
positions_at k [] = []
positions_at k (e ∷ es) = if same e.key k then e.positions else positions_at k es

abbrev pub record_at : Bytes → List BlockEntry → Option Bytes
record_at k [] = none
record_at k (e ∷ es) = if same e.key k then some e.record_json else record_at k es

not_same : (a b c : Bytes) → same a b ≡ false → same b c ≡ true → same a c ≡ false
not_same a b c h k = elim (Bool-cases (same a c)) [
  | inl e ↦ absurd (false≢true (sym h ∙ same_of a b (same→eq a c e ∙ sym (same→eq b c k))))
  | inr e ↦ e
]
  where
    same_of : (s t : Bytes) → s ≡ t → same s t ≡ true
    same_of s t e = rw e (same_refl t)

add-positions_at :
    (k key : Bytes) (p : ℕ) (json : Bytes) (es : List BlockEntry)
    → positions_at k (add_occurrence key p json es)
      ≡ positions_at k es ++ (if same key k then p ∷ [] else [])
unfolding add_occurrence
add-positions_at k key p json [] = refl
add-positions_at k key p json (e ∷ es) = elim (Bool-cases (same key e.key)) [
  | inl h ↦ elim (Bool-cases (same e.key k)) [
    | inl g ↦ rw (h, g, same→eq key e.key h, g) refl
    | inr g ↦ rw (h, g, same→eq key e.key h, g) (sym (append-nil (positions_at k es)))
  ]
  | inr h ↦ elim (Bool-cases (same e.key k)) [
    | inl g ↦ rw (h, g, not_same key e.key k h g) (sym (append-nil e.positions))
    | inr g ↦ rw (h, g) (add-positions_at k key p json es)
  ]
]

add-record_at :
    (k key : Bytes) (p : ℕ) (json : Bytes) (es : List BlockEntry)
    → record_at k (add_occurrence key p json es)
      ≡ (if same key k then some json else record_at k es)
unfolding add_occurrence
add-record_at k key p json [] = refl
add-record_at k key p json (e ∷ es) = elim (Bool-cases (same key e.key)) [
  | inl h ↦ elim (Bool-cases (same e.key k)) [
    | inl g ↦ rw (h, g, same→eq key e.key h, g) refl
    | inr g ↦ rw (h, g, same→eq key e.key h, g) refl
  ]
  | inr h ↦ elim (Bool-cases (same e.key k)) [
    | inl g ↦ rw (h, g, not_same key e.key k h g) refl
    | inr g ↦ rw (h, g) (add-record_at k key p json es)
  ]
]

from-positions_at :
    (k : Bytes) (rows : List (Bytes × Bytes)) (p : ℕ) (es : List BlockEntry)
    → positions_at k (entries_from p rows es) ≡ positions_at k es ++ positions_under k p rows
unfolding entries_from
from-positions_at k [] p es = sym (append-nil (positions_at k es))
from-positions_at k ((key, json) ∷ rows) p es =
    from-positions_at k rows (suc p) (add_occurrence key p json es)
    ∙ (ap (λ ps. ps ++ positions_under k (suc p) rows) (add-positions_at k key p json es)
        ∙ append_assoc (positions_at k es) _ _)

from-record_at :
    (k : Bytes) (rows : List (Bytes × Bytes)) (p : ℕ) (es : List BlockEntry)
    → record_at k (entries_from p rows es) ≡ last_under k rows (record_at k es)
unfolding entries_from
from-record_at k [] p es = refl
from-record_at k ((key, json) ∷ rows) p es =
    from-record_at k rows (suc p) (add_occurrence key p json es)
    ∙ ap (last_under k rows) (add-record_at k key p json es)

-- Under each key, the entries of `blockEntries` have every position of that key in the source
-- order, ascending, and the record stored last under it; a key that the source lacks has neither.
pub block_entries_group :
    (k : Bytes) (rows : List (Bytes × Bytes))
    → (positions_at k (block_entries rows) ≡ positions_under k 0 rows)
      × (record_at k (block_entries rows) ≡ last_under k rows none)
unfolding block_entries
block_entries_group k rows = (from-positions_at k rows 0 [], from-record_at k rows 0 [])
