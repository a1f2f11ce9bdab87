-- ===== src/Prelude/Text.antt =====
-- Go strings as lists of bytes, and what the program uses of the package `strings`.
use Prim.Native.Nat.{ℕ, ◌+◌}
use Prim.Native.Char.{code}
use Prim.Native.String.{String}
use mathlib.Core.Path.{◌≡◌, refl}
use mathlib.Core.Bool.{Bool, true, false, ◌&&◌, ◌||◌}
use mathlib.Core.List.{List, [], ◌∷◌, map, reverse}
use native.Mathlib.Omega.{arith}
use sekai_master_api.Prelude.Tests.{ltb, leb, ◌==◌, if◌then◌else◌}

abbrev pub Bytes : Type 0
Bytes = List ℕ

-- The code points of a literal: its bytes, if it is ASCII.
abbrev pub codes : String → Bytes
codes String.[] = []
codes (String.◌∷◌ c s) = code c ∷ codes s

-- `left == right` on strings.
unfoldable pub same : Bytes → Bytes → Bool
same [] [] = true
same (a ∷ as_) (b ∷ bs) = a == b && same as_ bs
same _ _ = false

pub same_refl : (s : Bytes) → same s s ≡ true
unfolding same
same_refl [] = refl
same_refl (a ∷ s) = ground (arith, same_refl s)

pub same→eq : (s t : Bytes) → same s t ≡ true → s ≡ t
unfolding same
same→eq [] [] h = refl
same→eq [] (b ∷ t) h = cc
same→eq (a ∷ s) [] h = cc
same→eq (a ∷ s) (b ∷ t) h = ground (arith, same→eq s t)

-- `left < right` on strings: byte by byte, a proper prefix first.
unfoldable pub less : Bytes → Bytes → Bool
less [] [] = false
less [] (b ∷ t) = true
less (a ∷ s) [] = false
less (a ∷ s) (b ∷ t) = ltb a b || (a == b && less s t)

-- The white space that is one byte.
unfoldable pub is_space : ℕ → Bool
is_space c = (leb 9 c && leb c 13) || c == 32

-- The last byte of U+2000 to U+200A, U+2028, U+2029 and U+202F, behind the bytes E2 80.
general_space : ℕ → Bool
general_space c = (leb 0x80 c && leb c 0x8a) || (c == 0xa8 || (c == 0xa9 || c == 0xaf))

-- The white space of two and of three bytes (UTF-8 of the code points that `unicode.IsSpace` has).
unfoldable pub is_space2 : ℕ → ℕ → Bool
is_space2 a b = a == 0xc2 && (b == 0x85 || b == 0xa0)

unfoldable pub is_space3 : ℕ → ℕ → ℕ → Bool
unfolding general_space
is_space3 a b c =
    (a == 0xe1 && (b == 0x9a && c == 0x80))
    || ((a == 0xe2 && ((b == 0x80 && general_space c) || (b == 0x81 && c == 0x9f)))
        || (a == 0xe3 && (b == 0x80 && c == 0x80)))

-- `strings.TrimLeftFunc(s, unicode.IsSpace)`.
unfoldable pub trim_left : Bytes → Bytes
unfolding is_space is_space2 is_space3
trim_left [] = []
trim_left (a ∷ []) = if is_space a then [] else a ∷ []
trim_left (a ∷ b ∷ []) =
    if is_space a then trim_left (b ∷ []) else if is_space2 a b then [] else a ∷ b ∷ []
trim_left (a ∷ b ∷ c ∷ s) =
    let one = trim_left (b ∷ c ∷ s) in
    let two = trim_left (c ∷ s) in
    let three = trim_left s in
    if is_space a
    then one
    else if is_space2 a b
    then two
    else if is_space3 a b c
    then three
    else a ∷ b ∷ c ∷ s

-- The same from the right end, on the reversed text.
unfoldable pub trim_back : Bytes → Bytes
unfolding is_space is_space2 is_space3
trim_back [] = []
trim_back (a ∷ []) = if is_space a then [] else a ∷ []
trim_back (a ∷ b ∷ []) =
    if is_space a then trim_back (b ∷ []) else if is_space2 b a then [] else a ∷ b ∷ []
trim_back (a ∷ b ∷ c ∷ s) =
    let one = trim_back (b ∷ c ∷ s) in
    let two = trim_back (c ∷ s) in
    let three = trim_back s in
    if is_space a
    then one
    else if is_space2 b a
    then two
    else if is_space3 c b a
    then three
    else a ∷ b ∷ c ∷ s

-- `strings.TrimSpace`.
unfoldable pub trim_space : Bytes → Bytes
unfolding trim_left trim_back
trim_space s = reverse (trim_back (reverse (trim_left s)))

-- `strings.ToLower`, on ASCII letters; bytes of other letters stay.
unfoldable pub lower : ℕ → ℕ
lower c = if leb 65 c && leb c 90 then c + 32 else c

unfoldable pub to_lower : Bytes → Bytes
unfolding lower
to_lower s = map lower s

trim_test : trim_space (codes "  Jp\n") ≡ codes "Jp"
unfolding trim_space
trim_test = refl

lower_test : to_lower (codes "JP-x") ≡ codes "jp-x"
unfolding to_lower
lower_test = refl
