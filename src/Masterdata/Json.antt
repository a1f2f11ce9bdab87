-- ===== src/Masterdata/Json.antt =====
-- Values of Go's type `any` as JSON decoding and the stores make them, and the parts of the
-- standard library that render them.
use sekai_master_api.Prelude.{ℕ, ◌+◌, ◌-◌, ◌^◌, Bool, true, false, ◌&&◌, ◌||◌, Option, none, some}
use sekai_master_api.Prelude.{[], ◌∷◌, leb, ltb, ◌==◌, if◌then◌else◌, ◌≡◌, refl, length}
use sekai_master_api.Prelude.Text.{Bytes, same, codes}
use sekai_master_api.Prelude.Decimal.{itoa, value}

-- `negsuc n` is -(n + 1).
pub data ℤ : Type 0 where
  pos : ℕ → ℤ
  negsuc : ℕ → ℤ

-- `json.Number` keeps the digits of its source. The signed and the unsigned integers of every
-- width are one constructor each. A float32 is given as the float64 that it converts to.
-- A record is a `map[string]any`: its fields, and a nil map is `end`.
mutual
  pub data Value (F : Type 0) : Type 0 where
    null : Value F
    str : Bytes → Value F
    number : Bytes → Value F
    float64 : F → Value F
    float32 : F → Value F
    int : ℤ → Value F
    uint : ℕ → Value F
    bool : Bool → Value F
    array : Items F → Value F
    object : Fields F → Value F

  pub data Items (F : Type 0) : Type 0 where
    nil : Items F
    cons : Value F → Items F → Items F

  pub data Fields (F : Type 0) : Type 0 where
    end : Fields F
    field : Bytes → Value F → Fields F → Fields F

-- What is not modelled of the standard library: float64 and its printing and parsing, `%v` on
-- values that are no key parts, SHA-256 in hexadecimal.
pub record Runtime (F : Type 0) : Type 0 where
  pub finite : F → Bool
  pub format64 : F → Bytes
  pub format32 : F → Bytes
  pub parse_float : Bytes → Option F
  pub print : Value F → Bytes
  pub sha256_hex : Bytes → Bytes

module _ {F : Type 0} where
  -- `record[key]` with its `ok`.
  unfoldable pub get : Bytes → Fields F → Option (Value F)
  get key end = none
  get key (field name v rest) = if same name key then some v else get key rest

-- `strconv.FormatInt(n, 10)`.
unfoldable pub format_int : ℤ → Bytes
format_int (ℤ.pos n) = itoa n
format_int (ℤ.negsuc n) = 45 ∷ itoa (n + 1)

unfoldable pub all_digits : Bytes → Bool
all_digits [] = true
all_digits (c ∷ s) = (leb 48 c && leb c 57) && all_digits s

-- `strconv.ParseUint(s, 10, 64)`: the digits' value, if it fits.
unfoldable pub parse_uint64 : Bytes → Option ℕ
unfolding all_digits
parse_uint64 s =
    if length s == 0 || (if all_digits s then false else true)
    then none
    else if ltb (value 0 s) (2 ^ 64)
    then some (value 0 s)
    else none

-- The digits behind the sign of `strconv.ParseInt(s, 10, 64)`; the least number is -2^63.
signed : Bool → Option ℕ → Option ℤ
signed negative none = none
signed true (some n) =
    if n == 0 then some (ℤ.pos 0) else if leb n (2 ^ 63) then some (ℤ.negsuc (n - 1)) else none
signed false (some n) = if ltb n (2 ^ 63) then some (ℤ.pos n) else none

unfoldable pub parse_int64 : Bytes → Option ℤ
unfolding signed
parse_int64 [] = none
parse_int64 (c ∷ s) =
    if c == 45
    then signed true (parse_uint64 s)
    else if c == 43
    then signed false (parse_uint64 s)
    else signed false (parse_uint64 (c ∷ s))

parse_test : parse_int64 (codes "-12") ≡ some (ℤ.negsuc 11)
unfolding parse_int64 parse_uint64 value
parse_test = refl
