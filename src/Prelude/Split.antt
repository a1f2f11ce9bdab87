-- ===== src/Prelude/Split.antt =====
-- `strings.Split`, `strings.Join` and `strings.Cut` with a separator of one byte.
use Prim.Native.Nat.{ℕ}
use mathlib.Core.Path.{◌≡◌, refl}
use mathlib.Core.Bool.{Bool, true, false}
use mathlib.Core.Option.{Option, none, some}
use mathlib.Core.List.{List, [], ◌∷◌, ◌++◌}
use mathlib.Core.Logic.{◌≢◌}
use native.Mathlib.Omega.{arith}
use sekai_master_api.Prelude.Tests.{◌==◌, if◌then◌else◌}
use sekai_master_api.Prelude.Lists.{All}
use sekai_master_api.Prelude.Text.{Bytes, codes}

push_front : ℕ → List Bytes → List Bytes
push_front c [] = (c ∷ []) ∷ []
push_front c (p ∷ ps) = (c ∷ p) ∷ ps

unfoldable pub split : ℕ → Bytes → List Bytes
unfolding push_front
split sep [] = [] ∷ []
split sep (c ∷ s) = let rest = split sep s in if c == sep then [] ∷ rest else push_front c rest

unfoldable pub join : ℕ → List Bytes → Bytes
join sep [] = []
join sep (p ∷ []) = p
join sep (p ∷ q ∷ ps) = p ++ sep ∷ join sep (q ∷ ps)

-- The text behind the first separator, if there is one.
unfoldable pub cut_after : ℕ → Bytes → Option Bytes
cut_after sep [] = none
cut_after sep (c ∷ s) = if c == sep then some s else cut_after sep s

-- The text in front of the first separator, if there is one.
unfoldable pub cut_before : ℕ → Bytes → Option Bytes
cut_before sep [] = none
cut_before sep (c ∷ s) =
    if c == sep then some [] else elim (cut_before sep s) [ none ↦ none | some r ↦ some (c ∷ r) ]

unfoldable pub contains_byte : ℕ → Bytes → Bool
contains_byte b [] = false
contains_byte b (c ∷ s) = if c == b then true else contains_byte b s

abbrev pub Lacks : ℕ → Bytes → Type 0
Lacks sep = All (λ c. c ≢ sep)

split-Lacks : (sep : ℕ) (p : Bytes) → Lacks sep p → split sep p ≡ p ∷ []
unfolding split
split-Lacks sep [] h = refl
split-Lacks sep (c ∷ p) h = ground (arith, split-Lacks sep p h.1)

split-append : (sep : ℕ) (p s : Bytes) → Lacks sep p → split sep (p ++ sep ∷ s) ≡ p ∷ split sep s
unfolding split
split-append sep [] s h = ground arith
split-append sep (c ∷ p) s h = ground (arith, split-append sep p s h.1)

-- Splitting a join gives the parts back, if there is a part and none holds the separator.
pub split-join :
    (sep : ℕ) (ps : List Bytes) → ps ≢ [] → All (Lacks sep) ps → split sep (join sep ps) ≡ ps
unfolding join
split-join sep [] some_part h = absurd (some_part refl)
split-join sep (p ∷ []) some_part h = split-Lacks sep p h.0
split-join sep (p ∷ q ∷ ps) some_part h =
    ground (arith, split-append sep p (join sep (q ∷ ps)) h.0, split-join sep (q ∷ ps) (cc) h.1)

split_test : split 44 (codes "a,,b") ≡ codes "a" ∷ [] ∷ codes "b" ∷ []
unfolding split
split_test = refl
