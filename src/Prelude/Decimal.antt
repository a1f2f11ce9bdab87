-- ===== src/Prelude/Decimal.antt =====
-- `strconv.Itoa` and `strconv.FormatUint` on natural numbers.
use Prim.Native.Nat.{ℕ, zero, suc, ◌+◌, ◌-◌, ◌*◌, ◌/◌, ◌%◌, ◌≤◌, ◌<◌}
use mathlib.Core.Path.{◌≡◌, refl, sym, ap, ◌∙◌}
use mathlib.Core.List.{[], ◌∷◌}
use native.Mathlib.Omega.{arith}
use sekai_master_api.Prelude.Tests.{ltb, if◌then◌else◌}
use sekai_master_api.Prelude.Lists.{All}
use sekai_master_api.Prelude.Text.{Bytes}

-- The digits of `n` in front of `out`; the fuel bounds the number of digits.
emit : ℕ → ℕ → Bytes → Bytes
emit zero n out = out
emit (suc f) n out =
    let rest = emit f (n / 10) ((48 + n % 10) ∷ out) in if ltb n 10 then (48 + n) ∷ out else rest

unfoldable pub itoa : ℕ → Bytes
unfolding emit
itoa n = emit (suc n) n []

-- The number that digits spell behind `acc`.
unfoldable pub value : ℕ → Bytes → ℕ
value acc [] = acc
value acc (c ∷ s) = value (acc * 10 + (c - 48)) s

value-emit : (f n : ℕ) (out : Bytes) → n < f → value 0 (emit f n out) ≡ value n out
unfolding emit value
value-emit zero n out h = absurd (omega arith)
value-emit (suc f) n out h = ground (arith, value-emit f (n / 10) ((48 + n % 10) ∷ out))

-- Reading back a printed number gives the number.
pub value-itoa : (n : ℕ) → value 0 (itoa n) ≡ n
unfolding itoa value
value-itoa n = value-emit (suc n) n [] (omega arith)

pub itoa-injective : (n m : ℕ) → itoa n ≡ itoa m → n ≡ m
itoa-injective n m h = sym (value-itoa n) ∙ ap (value 0) h ∙ value-itoa m

abbrev pub IsDigit : ℕ → Type 0
IsDigit c = (48 ≤ c) × (c ≤ 57)

emit-AllDigits : (f n : ℕ) (out : Bytes) → All IsDigit out → All IsDigit (emit f n out)
unfolding emit
emit-AllDigits zero n out h = h
emit-AllDigits (suc f) n out h = ground (arith, emit-AllDigits f (n / 10) ((48 + n % 10) ∷ out))

pub itoa-AllDigits : (n : ℕ) → All IsDigit (itoa n)
unfolding itoa
itoa-AllDigits n = emit-AllDigits (suc n) n [] tt

itoa_test : itoa 1010201 ≡ 49 ∷ 48 ∷ 49 ∷ 48 ∷ 50 ∷ 48 ∷ 49 ∷ []
unfolding itoa
itoa_test = refl
