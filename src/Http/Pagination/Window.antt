-- ===== src/Http/Pagination/Window.antt =====
-- The window of a page whose start does not overflow.
use sekai_master_api.Prelude.{
  ℕ, zero, suc, false, ◌+◌, ◌-◌, ◌*◌, ◌/◌, ◌^◌, ◌≤◌, ◌<◌, some, List, [], length, ltb, leb, take,
  drop, length-drop, take_past, drop_past, if◌then◌else◌, ◌≡◌, ◌↔◌, refl, sym, ◌∙◌, ap, inl, inr,
  arith, Bool-cases,
}
use native.Mathlib.Nat.{le-div_iff_mul-le}
use sekai_master_api.Masterdata.Json.{ℤ}
use sekai_master_api.Http.Pagination.{
  wrapped, capped_page_size, total_pages_of, window, paginate_items, PageInfo,
}

wrapped-small : (n : ℕ) → n < 2 ^ 63 → wrapped n ≡ ℤ.pos n
unfolding wrapped
wrapped-small n h = ground arith

pub capped_page_size-bounds :
    (n : ℕ) → 0 < n → (0 < capped_page_size n) × (capped_page_size n ≤ 100)
unfolding capped_page_size
capped_page_size-bounds n h = (ground arith, ground arith)

page_below :
    (page size total : ℕ) → 0 < size → (page < (total + size - 1) / size) ↔ (page * size < total)
page_below page size total h =
    let divided : (page + 1 ≤ (total + size - 1) / size) ↔ ((page + 1) * size ≤ total + size - 1) =
      le-div_iff_mul-le h in
    let grown : (page + 1) * size ≡ page * size + size = omega arith in
    (
      (λ e.
          let below : (page + 1) * size ≤ total + size - 1 = divided.0 (omega (arith, e)) in
          omega (arith, below, grown, h)),
      (λ e.
          let above : page + 1 ≤ (total + size - 1) / size =
            divided.1 (omega (arith, e, grown, h)) in
          omega (arith, above)),
    )

pub page_start : (page size : ℕ) → 0 < page → page * size ≡ (page - 1) * size + size
page_start zero size h = absurd (omega (arith, h))
page_start (suc n) size h =
    let before : suc n - 1 ≡ n = omega arith in
    let after : suc n ≡ n + 1 = omega arith in rw (before, after) (omega arith)

-- Another page exactly when the items go on behind this one.
pub has_next-lem :
    (page size total : ℕ)
    → 0 < size
    → ltb page (total_pages_of total size) ≡ ltb (page * size) total
unfolding total_pages_of
has_next-lem page size total h =
    let filled : (if ltb 0 size then (total + size - 1) / size else 0) ≡ (total + size - 1) / size =
      ground arith in
    let both : (page < (total + size - 1) / size) ↔ (page * size < total) =
      page_below page size total h in
    rw filled (elim (Bool-cases (ltb (page * size) total)) [
      | inl e ↦
          let below : page < (total + size - 1) / size = both.1 (ground arith) in
          rw e (ground arith)
      | inr e ↦ rw e (elim (Bool-cases (ltb page ((total + size - 1) / size))) [
        | inl f ↦ let below : page * size < total = both.0 (ground arith) in ground arith
        | inr f ↦ f
      ])
    ])

module _ {A : Type 0} where
  -- What a page should say.
  abbrev pub page_info : List A → ℕ → ℕ → PageInfo
  page_info items page size = record {
    page = page;
    page_size = size;
    total = length items;
    total_pages = total_pages_of (length items) size;
    has_next = ltb (page * size) (length items);
  }

  window-lem :
      (items : List A) (page start size : ℕ)
      → 0 < size
      → page * size ≡ start + size
      → window items
          (record (page_info items page size) {
            has_next = ltb page (total_pages_of (length items) size);
          })
          (ℤ.pos start)
        ≡ some (take size (drop start items), page_info items page size)
  unfolding window
  window-lem items page start size h next = elim (Bool-cases (leb (length items) start)) [
    | inl e ↦
        let last : ltb (page * size) (length items) ≡ false = rw next (ground arith) in
        rw (e, drop_past start items (ground arith), last, take_past {A = A} size [] (omega arith))
          refl
    | inr e ↦
        rw (e, has_next-lem page size (length items) h)
          (elim (Bool-cases (ltb (length items) (start + size))) [
            | inl f ↦ rw f (
                ap (λ xs. some (xs, page_info items page size))
                  (take_past (length items - start) (drop start items)
                      (omega (arith, length-drop start items))
                    ∙ sym (
                        take_past size (drop start items)
                          (ground (arith, length-drop start items)))))
            | inr f ↦ rw f (
                ap (λ n. some (take n (drop start items), page_info items page size)) (omega arith))
          ])
  ]

  -- Page `page` of lists that start below 2^63 is the items behind the pages before it, as many as
  -- a page holds or as there are, and it has a next page exactly when items are left.
  pub paginate_items-window :
      (items : List A) (page page_size : ℕ)
      → 0 < page
      → 0 < page_size
      → (page - 1) * capped_page_size page_size < 2 ^ 63
      → paginate_items items page page_size
        ≡ some (
          take (capped_page_size page_size) (drop ((page - 1) * capped_page_size page_size) items),
          page_info items page (capped_page_size page_size),
        )
  unfolding paginate_items
  paginate_items-window items page page_size p s small =
      let size : ℕ = capped_page_size page_size in
      rw (wrapped-small ((page - 1) * size) small) (
        window-lem items page ((page - 1) * size) size (capped_page_size-bounds page_size s).0
          (page_start page size p))
