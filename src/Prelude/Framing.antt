-- ===== src/Prelude/Framing.antt =====
-- Length-prefixed parts: a part behind its length in decimal and a colon. No two lists of parts
-- have the same text.
use mathlib.Core.Path.{◌≡◌, refl, sym, ap₂, ◌∙◌}
use mathlib.Core.List.{List, [], ◌∷◌, ◌++◌, append_assoc}
use native.Mathlib.Omega.{arith}
use sekai_master_api.Prelude.Lists.{All, length}
use sekai_master_api.Prelude.Text.{Bytes}
use sekai_master_api.Prelude.Decimal.{itoa, itoa-injective, itoa-AllDigits, IsDigit}

abbrev pub frame : Bytes → Bytes
frame part = itoa (length part) ++ 58 ∷ part

abbrev pub frames : List Bytes → Bytes
frames [] = []
frames (p ∷ ps) = frame p ++ frames ps

-- Digits in front of a colon end at that colon.
digits_unique :
    (d e r t : Bytes)
    → All IsDigit d
    → All IsDigit e
    → d ++ 58 ∷ r ≡ e ++ 58 ∷ t
    → (d ≡ e) × (r ≡ t)
digits_unique [] [] r t hd he h = ground arith
digits_unique [] (b ∷ e) r t hd he h = ground arith
digits_unique (a ∷ d) [] r t hd he h = ground arith
digits_unique (a ∷ d) (b ∷ e) r t hd he h = ground (arith, digits_unique d e r t)

pub append_unique {ℓ} :
    {A : Type ℓ} (p q r t : List A) → length p ≡ length q → p ++ r ≡ q ++ t → (p ≡ q) × (r ≡ t)
append_unique [] [] r t h e = (refl, e)
append_unique [] (y ∷ q) r t h e = absurd (omega arith)
append_unique (x ∷ p) [] r t h e = absurd (omega arith)
append_unique (x ∷ p) (y ∷ q) r t h e = ground (arith, append_unique p q r t)

frame-append : (p r : Bytes) → frame p ++ r ≡ itoa (length p) ++ 58 ∷ (p ++ r)
frame-append p r = append_assoc (itoa (length p)) (58 ∷ p) r

-- A framed part is read back from in front of any text.
pub frame_unique : (p q r t : Bytes) → frame p ++ r ≡ frame q ++ t → (p ≡ q) × (r ≡ t)
frame_unique p q r t h =
    let split =
      digits_unique (itoa (length p)) (itoa (length q)) (p ++ r) (q ++ t)
        (itoa-AllDigits (length p)) (itoa-AllDigits (length q))
        (sym (frame-append p r) ∙ h ∙ frame-append q t) in
    append_unique p q r t (itoa-injective (length p) (length q) split.0) split.1

digits_front : (d r : Bytes) → d ++ 58 ∷ r ≡ [] → ⊥
digits_front [] r h = cc
digits_front (c ∷ d) r h = cc

frame_ne_nil : (p r : Bytes) → frame p ++ r ≡ [] → ⊥
frame_ne_nil p r h = digits_front (itoa (length p)) (p ++ r) (sym (frame-append p r) ∙ h)

-- Lists of parts with the same text are the same list.
pub frames_injective : (ps qs : List Bytes) → frames ps ≡ frames qs → ps ≡ qs
frames_injective [] [] h = refl
frames_injective [] (q ∷ qs) h = absurd (frame_ne_nil q (frames qs) (sym h))
frames_injective (p ∷ ps) [] h = absurd (frame_ne_nil p (frames ps) h)
frames_injective (p ∷ ps) (q ∷ qs) h =
    let split = frame_unique p q (frames ps) (frames qs) h in
    ap₂ (λ x xs. x ∷ xs) split.0 (frames_injective ps qs split.1)
