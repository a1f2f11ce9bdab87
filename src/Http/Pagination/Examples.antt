-- ===== src/Http/Pagination/Examples.antt =====
-- Pages of five items.
use sekai_master_api.Prelude.{ℕ, ◌^◌, ◌<◌, none, some, List, [], ◌∷◌, ◌≡◌, refl, arith}
use sekai_master_api.Prelude.Text.{codes, trim_space}
use sekai_master_api.Prelude.Decimal.{value}
use sekai_master_api.Masterdata.Json.{parse_int64, parse_uint64}
use sekai_master_api.Http.Pagination.{positive_parameter, capped_page_size, paginate_items}
use sekai_master_api.Http.Pagination.Window.{page_info, paginate_items-window}
use sekai_master_api.Http.Pagination.Walk.{read_pages, read_pages-all}
use sekai_master_api.Http.Pagination.Overflow.{far_page, far_page-Panics}

abbrev five : List ℕ
five = 1 ∷ 2 ∷ 3 ∷ 4 ∷ 5 ∷ []

blank_test : positive_parameter 20 (codes " ") ≡ some 20
unfolding positive_parameter trim_space
blank_test = refl

zero_test : positive_parameter 20 (codes "0") ≡ none
unfolding positive_parameter trim_space parse_int64 parse_uint64 value
zero_test = refl

paginate_items-window_example : paginate_items five 3 2 ≡ some (5 ∷ [], page_info five 3 2)
unfolding capped_page_size
paginate_items-window_example =
    paginate_items-window five 3 2 (omega arith) (omega arith) (omega arith)

read_pages-all_example : read_pages 6 five 1 2 ≡ some five
read_pages-all_example = read_pages-all five 2 (omega arith) (omega arith)

far_page-Panics_example : (far_page 2 < 2 ^ 63) × (paginate_items five (far_page 2) 2 ≡ none)
far_page-Panics_example = far_page-Panics five 2 (omega arith)
