-- ===== src/Http/Spoilers/Tight.antt =====
-- The moment that a hint names is the first at which the list changes.
use sekai_master_api.Prelude.{
  ℕ, true, false, ◌≤◌, ◌<◌, none, some, List, [], ◌∷◌, length, ltb, ◌==◌, ◌&&◌, ◌||◌, if◌then◌else◌,
  ◌≡◌, ◌⊎◌, refl, sym, ◌∙◌, ap, inl, inr, arith, Bool-cases, le_trans, subst, some_inj, ltb→lt,
}
use sekai_master_api.Prelude.Text.{Bytes}
use sekai_master_api.Masterdata.Json.{Fields, Runtime, get}
use sekai_master_api.Usecase.EventTime.{Clock}
use sekai_master_api.Http.Spoilers.{
  Hint, valid_until, filter_spoiler_items_context, spoiler_timestamp_keys, timestamp_of, any_ahead,
  is_spoiler_item, filter_spoiler_items, latest_ahead, spoiler_reveal_at, sooner, earliest_reveal,
}
use sekai_master_api.Http.Spoilers.Reveal.{
  any_ahead-later, latest_ahead-le, latest_of, spoiler_reveal_at-Some, spoiler_reveal_at-None,
}
use sekai_master_api.Http.Spoilers.Steady.{context_items}

module _ {F : Type 0} (runtime : Runtime F) (clock : Clock F) where
  abbrev time_at : Bytes → Fields F → ℕ
  time_at key item = timestamp_of runtime clock (get key item)

  after_latest :
      (keys : List Bytes) (item : Fields F) (now latest t : ℕ)
      → now ≤ t
      → latest_ahead runtime clock keys item now latest ≤ t
      → any_ahead runtime clock keys item t ≡ false
  unfolding latest_ahead any_ahead
  after_latest [] item now latest t h k = refl
  after_latest (key ∷ keys) item now latest t h k =
      let next : ℕ =
        if ltb now (time_at key item) && ltb latest (time_at key item)
        then time_at key item
        else latest in
      let below : next ≤ t = le_trans (latest_ahead-le runtime clock keys item now next) k in
      let past : ltb t (time_at key item) ≡ false = ground (arith, below, h) in
      rw past (after_latest keys item now next t h k)

  filter-grows :
      (items : List (Fields F)) (now t : ℕ)
      → now ≤ t
      → length (filter_spoiler_items runtime clock items now)
        ≤ length (filter_spoiler_items runtime clock items t)
  unfolding filter_spoiler_items is_spoiler_item
  filter-grows [] now t h = omega arith
  filter-grows (item ∷ items) now t h =
      let rest : length (filter_spoiler_items runtime clock items now)
          ≤ length (filter_spoiler_items runtime clock items t) =
        filter-grows items now t h in
      elim (Bool-cases (is_spoiler_item runtime clock item now)) [
        | inl e ↦ rw e (elim (Bool-cases (is_spoiler_item runtime clock item t)) [
          | inl f ↦ rw f rest
          | inr f ↦ rw f (omega (arith, rest))
        ])
        | inr e ↦
            rw (e, any_ahead-later runtime clock spoiler_timestamp_keys item now t h e)
              (omega (arith, rest))
      ]

  sooner-cases :
      (r a : ℕ) → (sooner runtime clock (some r) a ≡ a) ⊎ (sooner runtime clock (some r) a ≡ r)
  unfolding sooner
  sooner-cases r a = elim (Bool-cases (a == 0 || ltb r a)) [
    | inl e ↦ inr (rw e refl)
    | inr e ↦ inl (rw e refl)
  ]

  abbrev Grown : ℕ → ℕ → List (Fields F) → Type 0
  Grown now e items =
      (now < e)
      × (length (filter_spoiler_items runtime clock items now)
          < length (filter_spoiler_items runtime clock items e))

  -- A spoiler is in the list from the moment that the source computes for it.
  reveals :
      (item : Fields F) (items : List (Fields F)) (now e : ℕ)
      → is_spoiler_item runtime clock item now ≡ true
      → e ≡ latest_of runtime clock item now
      → Grown now e (item ∷ items)
  unfolding filter_spoiler_items is_spoiler_item
  reveals item items now e s p =
      let later : now < latest_of runtime clock item now =
        (spoiler_reveal_at-Some runtime clock item now s).1 in
      let shown : is_spoiler_item runtime clock item e ≡ false =
        after_latest spoiler_timestamp_keys item now 0 e (omega (arith, later, p))
          (omega (arith, p)) in
      let rest : length (filter_spoiler_items runtime clock items now)
          ≤ length (filter_spoiler_items runtime clock items e) =
        filter-grows items now e (omega (arith, later, p)) in
      (omega (arith, later, p), rw (s, shown) (omega (arith, rest)))

  Grown-cons :
      (item : Fields F) (items : List (Fields F)) (now e : ℕ)
      → Grown now e items
      → Grown now e (item ∷ items)
  unfolding filter_spoiler_items is_spoiler_item
  Grown-cons item items now e g = (
    g.0,
    elim (Bool-cases (is_spoiler_item runtime clock item now)) [
      | inl s ↦ rw s (elim (Bool-cases (is_spoiler_item runtime clock item e)) [
        | inl f ↦ rw f g.1
        | inr f ↦ rw f (omega (arith, g.1))
      ])
      | inr s ↦
          rw
            (
              s,
              any_ahead-later runtime clock spoiler_timestamp_keys item now e (omega (arith, g.0))
                  s,
            )
            (omega (arith, g.1))
    ],
  )

  changes_at :
      (items : List (Fields F)) (now a : ℕ)
      → (earliest_reveal runtime clock items now a ≡ a)
        ⊎ Grown now (earliest_reveal runtime clock items now a) items
  unfolding earliest_reveal sooner
  changes_at [] now a = inl refl
  changes_at (item ∷ items) now a =
      let next : ℕ = sooner runtime clock (spoiler_reveal_at runtime clock item now) a in
      elim (changes_at items now next) [
        | inr g ↦ inr (Grown-cons item items now (earliest_reveal runtime clock items now next) g)
        | inl p ↦ elim (Bool-cases (is_spoiler_item runtime clock item now)) [
          | inr e ↦ inl (
              p
              ∙ ap (λ r. sooner runtime clock r a)
                  (spoiler_reveal_at-None runtime clock item now e))
          | inl e ↦
              let found : next ≡ sooner runtime clock (some (latest_of runtime clock item now)) a =
                ap (λ r. sooner runtime clock r a)
                  (spoiler_reveal_at-Some runtime clock item now e).0 in
              elim (sooner-cases (latest_of runtime clock item now) a) [
                | inl q ↦ inl (p ∙ found ∙ q)
                | inr q ↦ inr (
                    reveals item items now (earliest_reveal runtime clock items now next) e
                      (p ∙ found ∙ q))
              ]
        ]
      ]

  valid_until-cases :
      (e u : ℕ) (hint : Hint) → valid_until e hint ≡ some u → (hint ≡ some u) ⊎ (e ≡ u)
  unfolding valid_until
  valid_until-cases e u none h = inr (some_inj _ _ h)
  valid_until-cases e u (some old) h = elim (Bool-cases (ltb e old)) [
    | inl f ↦ inr (some_inj _ _ (sym (rw f refl) ∙ h))
    | inr f ↦ inl (sym (rw f refl) ∙ h)
  ]

  context_hint-cases :
      (items : List (Fields F)) (now : ℕ) (hint : Hint)
      → ((filter_spoiler_items_context runtime clock items now hint).1 ≡ hint)
        ⊎ ((0 < earliest_reveal runtime clock items now 0)
            × ((filter_spoiler_items_context runtime clock items now hint).1
                ≡ valid_until (earliest_reveal runtime clock items now 0) hint))
  unfolding filter_spoiler_items_context
  context_hint-cases items now hint =
      elim (Bool-cases (length (filter_spoiler_items runtime clock items now) == length items)) [
        | inl e ↦ inl (rw e refl)
        | inr e ↦ elim (Bool-cases (ltb 0 (earliest_reveal runtime clock items now 0))) [
          | inl f ↦ inr (ltb→lt 0 _ f, rw (e, f) refl)
          | inr f ↦ inl (rw (e, f) refl)
        ]
      ]

  changed_at :
      (items : List (Fields F)) (now u : ℕ)
      → 0 < earliest_reveal runtime clock items now 0
      → earliest_reveal runtime clock items now 0 ≡ u
      → length (filter_spoiler_items runtime clock items now)
        < length (filter_spoiler_items runtime clock items u)
  changed_at items now u p e = elim (changes_at items now 0) [
    | inl z ↦ absurd (omega (arith, z, p))
    | inr g ↦
        subst
          (λ v.
            length (filter_spoiler_items runtime clock items now)
            < length (filter_spoiler_items runtime clock items v))
          e g.1
  ]

  -- At the moment that the hint names behind a filter, the filter drops fewer items, unless the hint
  -- named this moment before.
  pub filter_spoiler_items_context-changes :
      (items : List (Fields F)) (now u : ℕ) (hint : Hint)
      → (filter_spoiler_items_context runtime clock items now hint).1 ≡ some u
      → (hint ≡ some u)
        ⊎ (length (filter_spoiler_items_context runtime clock items now hint).0
            < length (filter_spoiler_items runtime clock items u))
  filter_spoiler_items_context-changes items now u hint e =
      elim (context_hint-cases items now hint) [
        | inl same_hint ↦ inl (sym same_hint ∙ e)
        | inr new ↦ elim (valid_until-cases _ u hint (sym new.1 ∙ e)) [
          | inl old ↦ inl old
          | inr moment ↦ inr (
              rw (context_items runtime clock items now hint) (changed_at items now u new.0 moment))
        ]
      ]
