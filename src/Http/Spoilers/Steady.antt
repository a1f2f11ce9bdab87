-- ===== src/Http/Spoilers/Steady.antt =====
-- How long a list without spoilers stays as it is.
use sekai_master_api.Prelude.{
  ℕ, suc, ◌≤◌, ◌<◌, Option, none, some, List, [], ◌∷◌, length, ltb, ◌==◌, ◌≡◌, refl, sym, ◌∙◌, inl,
  inr, arith, Bool-cases, some_inj, le_trans, lt→ltb,
}
use sekai_master_api.Masterdata.Json.{Fields, Runtime}
use sekai_master_api.Usecase.EventTime.{Clock}
use sekai_master_api.Http.Spoilers.{
  spoiler_timestamp_keys, Hint, valid_until, is_spoiler_item, filter_spoiler_items,
  spoiler_reveal_at, sooner, earliest_reveal, filter_spoiler_items_context,
}
use sekai_master_api.Http.Spoilers.Reveal.{
  any_ahead-later, latest_of, spoiler_until, spoiler_reveal_at-Some, spoiler_reveal_at-None,
}

module _ {F : Type 0} (runtime : Runtime F) (clock : Clock F) where
  sooner-bounds :
      (reveal_at earliest : ℕ)
      → 0 < reveal_at
      → (0 < sooner runtime clock (some reveal_at) earliest)
        × (sooner runtime clock (some reveal_at) earliest ≤ reveal_at)
  unfolding sooner
  sooner-bounds reveal_at earliest h = (ground arith, ground arith)

  sooner-le :
      (reveal : Option ℕ) (earliest : ℕ)
      → ((r : ℕ) → reveal ≡ some r → 0 < r)
      → 0 < earliest
      → (0 < sooner runtime clock reveal earliest)
        × (sooner runtime clock reveal earliest ≤ earliest)
  unfolding sooner
  sooner-le none earliest p h = (h, omega arith)
  sooner-le (some r) earliest p h = let positive : 0 < r = p r refl in (ground arith, ground arith)

  reveal_positive :
      (item : Fields F) (now r : ℕ) → spoiler_reveal_at runtime clock item now ≡ some r → 0 < r
  reveal_positive item now r e = elim (Bool-cases (is_spoiler_item runtime clock item now)) [
    | inl s ↦
        let found : (spoiler_reveal_at runtime clock item now
              ≡ some (latest_of runtime clock item now))
            × (now < latest_of runtime clock item now) =
          spoiler_reveal_at-Some runtime clock item now s in
        let same_moment : latest_of runtime clock item now ≡ r = some_inj _ _ (sym found.0 ∙ e) in
        omega (arith, same_moment, found.1)
    | inr s ↦ absurd (cc (spoiler_reveal_at-None runtime clock item now s, e))
  ]

  earliest_reveal-le :
      (items : List (Fields F)) (now earliest : ℕ)
      → 0 < earliest
      → (0 < earliest_reveal runtime clock items now earliest)
        × (earliest_reveal runtime clock items now earliest ≤ earliest)
  unfolding earliest_reveal
  earliest_reveal-le [] now earliest h = (h, omega arith)
  earliest_reveal-le (item ∷ items) now earliest h =
      let first : (0 < sooner runtime clock (spoiler_reveal_at runtime clock item now) earliest)
          × (sooner runtime clock (spoiler_reveal_at runtime clock item now) earliest ≤ earliest) =
        sooner-le _ earliest (reveal_positive item now) h in
      let rest : (0
            < earliest_reveal runtime clock items now
                (sooner runtime clock (spoiler_reveal_at runtime clock item now) earliest))
          × (earliest_reveal runtime clock items now
                (sooner runtime clock (spoiler_reveal_at runtime clock item now) earliest)
              ≤ sooner runtime clock (spoiler_reveal_at runtime clock item now) earliest) =
        earliest_reveal-le items now _ first.0 in
      (rest.0, le_trans rest.1 first.1)

  -- Before the earliest reveal, the filter drops the same items.
  steady_until :
      (items : List (Fields F)) (now t earliest : ℕ)
      → now ≤ t
      → (0 < earliest_reveal runtime clock items now earliest
          → t < earliest_reveal runtime clock items now earliest)
      → filter_spoiler_items runtime clock items t ≡ filter_spoiler_items runtime clock items now
  unfolding filter_spoiler_items earliest_reveal
  steady_until [] now t earliest h k = refl
  steady_until (item ∷ items) now t earliest h k =
      let next : ℕ = sooner runtime clock (spoiler_reveal_at runtime clock item now) earliest in
      let rest : filter_spoiler_items runtime clock items t
          ≡ filter_spoiler_items runtime clock items now =
        steady_until items now t next h k in
      elim (Bool-cases (is_spoiler_item runtime clock item now)) [
        | inl e ↦
            let found : (spoiler_reveal_at runtime clock item now
                  ≡ some (latest_of runtime clock item now))
                × (now < latest_of runtime clock item now) =
              spoiler_reveal_at-Some runtime clock item now e in
            let bounds : (0 < next) × (next ≤ latest_of runtime clock item now) = rw (found.0) (
              sooner-bounds (latest_of runtime clock item now) earliest (omega (arith, found.1))) in
            let least : (0 < earliest_reveal runtime clock items now next)
                × (earliest_reveal runtime clock items now next ≤ next) =
              earliest_reveal-le items now next bounds.0 in
            let before : t < latest_of runtime clock item now =
              omega (arith, k least.0, least.1, bounds.1) in
            rw (e, spoiler_until runtime clock item now t before, rest) refl
        | inr e ↦
            rw (e, any_ahead-later runtime clock spoiler_timestamp_keys item now t h e, rest) refl
      ]

  filter-length :
      (items : List (Fields F)) (now : ℕ)
      → length (filter_spoiler_items runtime clock items now) ≤ length items
  unfolding filter_spoiler_items
  filter-length [] now = omega arith
  filter-length (item ∷ items) now =
      let rest : length (filter_spoiler_items runtime clock items now) ≤ length items =
        filter-length items now in
      elim (Bool-cases (is_spoiler_item runtime clock item now)) [
        | inl e ↦ rw e (omega (arith, rest))
        | inr e ↦ rw e (omega (arith, rest))
      ]

  -- Nothing is reported when nothing is dropped.
  none_dropped :
      (items : List (Fields F)) (now earliest : ℕ)
      → length (filter_spoiler_items runtime clock items now) ≡ length items
      → earliest_reveal runtime clock items now earliest ≡ earliest
  unfolding filter_spoiler_items earliest_reveal sooner
  none_dropped [] now earliest e = refl
  none_dropped (item ∷ items) now earliest e =
      elim (Bool-cases (is_spoiler_item runtime clock item now)) [
        | inl s ↦
            let fewer : length (filter_spoiler_items runtime clock items now) ≡ suc (length items) =
              sym (rw s refl) ∙ e in
            absurd (omega (arith, fewer, filter-length items now))
        | inr s ↦
            let kept : suc (length (filter_spoiler_items runtime clock items now))
                ≡ suc (length items) =
              sym (rw s refl) ∙ e in
            rw (spoiler_reveal_at-None runtime clock item now s)
              (none_dropped items now earliest (omega (arith, kept)))
      ]

  valid_until-Before :
      (e t : ℕ) (hint : Hint) → ((u : ℕ) → valid_until e hint ≡ some u → t < u) → t < e
  unfolding valid_until
  valid_until-Before e t none h = h e refl
  valid_until-Before e t (some u) h = elim (Bool-cases (ltb e u)) [
    | inl f ↦ h e (rw f refl)
    | inr f ↦ let before : t < u = h u (rw f refl) in ground arith
  ]

  pub context_items :
      (items : List (Fields F)) (now : ℕ) (hint : Hint)
      → (filter_spoiler_items_context runtime clock items now hint).0
        ≡ filter_spoiler_items runtime clock items now
  unfolding filter_spoiler_items_context
  context_items items now hint = ground arith

  context_hint :
      (items : List (Fields F)) (now : ℕ) (hint : Hint)
      → 0 < earliest_reveal runtime clock items now 0
      → (filter_spoiler_items_context runtime clock items now hint).1
        ≡ valid_until (earliest_reveal runtime clock items now 0) hint
  unfolding filter_spoiler_items_context
  context_hint items now hint h =
      elim (Bool-cases (length (filter_spoiler_items runtime clock items now) == length items)) [
        | inl e ↦ absurd (omega (arith, h, none_dropped items now 0 (ground arith)))
        | inr e ↦ rw (e, lt→ltb 0 (earliest_reveal runtime clock items now 0) h) refl
      ]

  -- A list filtered at one moment is what the filter gives at every later moment before the one that
  -- the request's hint then names, whatever the hint held before; without a hint, at every later
  -- moment.
  pub filter_spoiler_items_context-steady :
      (items : List (Fields F)) (now t : ℕ) (hint : Hint)
      → now ≤ t
      → ((u : ℕ) → (filter_spoiler_items_context runtime clock items now hint).1 ≡ some u → t < u)
      → filter_spoiler_items runtime clock items t
        ≡ (filter_spoiler_items_context runtime clock items now hint).0
  filter_spoiler_items_context-steady items now t hint h before =
      steady_until items now t 0 h
        (λ k. valid_until-Before _ t hint (λ u e. before u (context_hint items now hint k ∙ e)))
      ∙ sym (context_items items now hint)
