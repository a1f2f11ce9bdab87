-- ===== src/Http/Pagination/Overflow.antt =====
-- Pages so far behind the list that the start of the window overflows.
use sekai_master_api.Prelude.{
  ℕ, ◌+◌, ◌-◌, ◌*◌, ◌/◌, ◌%◌, ◌^◌, ◌≤◌, ◌<◌, none, List, ◌≡◌, refl, arith,
}
use native.Mathlib.Nat.{div-mul-le_self, lt-div-mul-add, div-le_of_le-mul}
use sekai_master_api.Masterdata.Json.{ℤ}
use sekai_master_api.Http.Pagination.{wrapped, capped_page_size, window, paginate_items}

wrapped-large : (n : ℕ) → 2 ^ 63 ≤ n → n < 2 ^ 64 → wrapped n ≡ ℤ.negsuc (2 ^ 64 - 1 - n)
unfolding wrapped
wrapped-large n h k =
    let same_number : n % 2 ^ 64 ≡ n = omega arith in rw same_number (ground arith)

two_at_least :
    (page_size : ℕ)
    → 2 ≤ page_size
    → (2 ≤ capped_page_size page_size) × (capped_page_size page_size ≤ 100)
unfolding capped_page_size
two_at_least page_size h = (ground arith, ground arith)

-- A page whose start is behind the greatest int.
pub far_page : ℕ → ℕ
unfolding capped_page_size
far_page page_size = 2 ^ 63 / capped_page_size page_size + 2

-- For every page size above 1 there is a page number that the handlers accept, a positive int, for
-- which the start of the window overflows and slicing the list panics, whatever the list is.
pub far_page-Panics :
    {A : Type 0} (items : List A) (page_size : ℕ)
    → 2 ≤ page_size
    → (far_page page_size < 2 ^ 63) × (paginate_items items (far_page page_size) page_size ≡ none)
unfolding far_page paginate_items window
far_page-Panics items page_size s =
    let size : ℕ = capped_page_size page_size in
    let bounds : (2 ≤ size) × (size ≤ 100) = two_at_least page_size s in
    let below : 2 ^ 63 / size * size ≤ 2 ^ 63 = div-mul-le_self (2 ^ 63) size in
    let above : 2 ^ 63 < 2 ^ 63 / size * size + size = lt-div-mul-add (omega (arith, bounds)) in
    let half : 2 ^ 63 / size ≤ 2 ^ 62 = div-le_of_le-mul size (omega (arith, bounds)) in
    let before : 2 ^ 63 / size + 2 - 1 ≡ 2 ^ 63 / size + 1 = omega arith in
    let start : (2 ^ 63 / size + 1) * size ≡ 2 ^ 63 / size * size + size = omega arith in
    (
      omega (arith, half),
      rw
          (
            before,
            start,
            wrapped-large (2 ^ 63 / size * size + size) (omega (arith, above))
                (omega (arith, below, bounds)),
          )
          refl,
    )
