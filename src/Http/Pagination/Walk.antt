-- ===== src/Http/Pagination/Walk.antt =====
-- A client that reads the pages of a list, from the first one on, until `has_next` is false.
use sekai_master_api.Prelude.{
  ℕ, zero, suc, ◌+◌, ◌-◌, ◌*◌, ◌^◌, ◌≤◌, ◌<◌, Option, none, some, List, ◌++◌, length, ltb, take,
  drop, take-append-drop, drop-drop, take_past, length-drop, if◌then◌else◌, ◌≡◌, sym, ◌∙◌, ap, inl,
  inr, arith, Bool-cases,
}
use sekai_master_api.Http.Pagination.{capped_page_size, paginate_items, PageInfo}
use sekai_master_api.Http.Pagination.Window.{
  paginate_items-window, capped_page_size-bounds, page_info, page_start,
}

module _ {A : Type 0} where
  pub and_then : List A → Option (List A) → Option (List A)
  and_then xs none = none
  and_then xs (some ys) = some (xs ++ ys)

  go_on : Option (List A × PageInfo) → Option (List A) → Option (List A)
  unfolding and_then
  go_on none rest = none
  go_on (some (xs, info)) rest = if info.has_next then and_then xs rest else some xs

  -- `none` when a page panics or the fuel runs out.
  unfoldable pub read_pages : ℕ → List A → ℕ → ℕ → Option (List A)
  unfolding go_on
  read_pages zero items page page_size = none
  read_pages (suc fuel) items page page_size =
      let rest = read_pages fuel items (suc page) page_size in
      go_on (paginate_items items page page_size) rest

  read_from :
      (fuel : ℕ) (items : List A) (page page_size : ℕ)
      → 0 < page
      → 0 < page_size
      → length items + 100 < 2 ^ 63
      → (page - 1) * capped_page_size page_size ≤ length items
      → length items < fuel + (page - 1) * capped_page_size page_size
      → read_pages fuel items page page_size
        ≡ some (drop ((page - 1) * capped_page_size page_size) items)
  unfolding read_pages go_on and_then
  read_from zero items page page_size p s small inside enough =
      absurd (omega (arith, inside, enough))
  read_from (suc fuel) items page page_size p s small inside enough =
      let size : ℕ = capped_page_size page_size in
      let bounds : (0 < size) × (size ≤ 100) = capped_page_size-bounds page_size s in
      let start : ℕ = (page - 1) * size in
      let here : paginate_items items page page_size
          ≡ some (take size (drop start items), page_info items page size) =
        paginate_items-window items page page_size p s (omega (arith, small, inside)) in
      let same_page : suc page - 1 ≡ page = omega arith in
      let next : page * size ≡ start + size = page_start page size p in
      rw here (elim (Bool-cases (ltb (page * size) (length items))) [
        | inl e ↦
            let more : start + size < length items = ground (arith, next, e) in
            let rest : read_pages fuel items (suc page) page_size
                ≡ some (drop (start + size) items) =
              read_from fuel items (suc page) page_size (omega arith) s small
                (rw (same_page, next) (omega (arith, more)))
                (rw (same_page, next) (omega (arith, enough, bounds)))
              ∙ ap (λ k. some (drop k items)) (ap (λ k. k * size) same_page ∙ next) in
            rw (e, rest)
              (ap some (
                ap (λ ys. take size (drop start items) ++ ys) (sym (drop-drop size start items))
                ∙ take-append-drop size (drop start items)))
        | inr e ↦ rw e (
            ap some (
              take_past size (drop start items) (ground (arith, length-drop start items, next, e))))
      ])

  -- A client that reads the pages of a list from the first one on, until `has_next` is false, gets
  -- every item once and in order, for every page size and after at most one request for each item
  -- and one more, where the list is shorter than the greatest int less 100.
  pub read_pages-all :
      (items : List A) (page_size : ℕ)
      → 0 < page_size
      → length items + 100 < 2 ^ 63
      → read_pages (suc (length items)) items 1 page_size ≡ some items
  read_pages-all items page_size s small =
      let first : (1 - 1) * capped_page_size page_size ≡ 0 = omega arith in
      read_from (suc (length items)) items 1 page_size (omega arith) s small (omega (arith, first))
        (omega (arith, first))
      ∙ ap (λ k. some (drop k items)) first
