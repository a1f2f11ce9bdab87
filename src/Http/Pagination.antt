-- ===== src/Http/Pagination.antt =====
-- PaginateItems of internal/transport/http/handlers/shared/sort_helper.go, and how the handlers
-- of the lists read `page` and `page_size`. Integers are Go's int of 64 bits.
pub mod Window
pub mod Walk
pub mod Overflow
mod Examples
use sekai_master_api.Prelude.{
  ℕ, Bool, true, false, ◌+◌, ◌-◌, ◌*◌, ◌/◌, ◌%◌, ◌^◌, Option, none, some, List, [], ◌∷◌, length,
  ltb, leb, ◌==◌, take, drop, if◌then◌else◌,
}
use sekai_master_api.Prelude.Text.{Bytes, trim_space}
use sekai_master_api.Masterdata.Json.{ℤ, parse_int64}

-- A parsed number that must be positive.
positive : Option ℤ → Option ℕ
positive none = none
positive (some (ℤ.pos n)) = if n == 0 then none else some n
positive (some (ℤ.negsuc n)) = none

-- `page` and `page_size` of a list request: the default for a blank parameter, and `none`, an
-- answer with status 400, unless the parameter is a positive int.
unfoldable pub positive_parameter : ℕ → Bytes → Option ℕ
unfolding positive parse_int64 trim_space
positive_parameter default raw =
    let text = trim_space raw in
    if length text == 0 then some default else positive (parse_int64 text)

-- The int that a product of two nonnegative ints wraps around to.
unfoldable pub wrapped : ℕ → ℤ
wrapped n = let m = n % 2 ^ 64 in if ltb m (2 ^ 63) then ℤ.pos m else ℤ.negsuc (2 ^ 64 - 1 - m)

-- The `gin.H` of an answer.
pub record PageInfo : Type 0 where
  pub page : ℕ
  pub page_size : ℕ
  pub total : ℕ
  pub total_pages : ℕ
  pub has_next : Bool

unfoldable pub capped_page_size : ℕ → ℕ
capped_page_size page_size = if ltb 100 page_size then 100 else page_size

unfoldable pub total_pages_of : ℕ → ℕ → ℕ
total_pages_of total page_size = if ltb 0 page_size then (total + page_size - 1) / page_size else 0

module _ {A : Type 0} where
  -- `items[start:end]` for an `end` in range: `none` is the panic on a negative start.
  window : List A → PageInfo → ℤ → Option (List A × PageInfo)
  window items info (ℤ.negsuc n) = none
  window items info (ℤ.pos start) =
      if leb (length items) start
      then some ([], record info { has_next = false })
      else if ltb (length items) (start + info.page_size)
      then some (take (length items - start) (drop start items), info)
      else some (take (start + info.page_size - start) (drop start items), info)

  -- `PaginateItems` of a positive page and page size, as `positive_parameter` gives them.
  unfoldable pub paginate_items : List A → ℕ → ℕ → Option (List A × PageInfo)
  unfolding window wrapped capped_page_size total_pages_of
  paginate_items items page page_size =
      let size = capped_page_size page_size in
      let total_pages = total_pages_of (length items) size in
      let info : PageInfo = record {
        page = page;
        page_size = size;
        total = length items;
        total_pages = total_pages;
        has_next = ltb page total_pages;
      } in
      window items info (wrapped ((page - 1) * size))
