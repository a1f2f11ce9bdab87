-- ===== src/Http/Spoilers/Reveal.antt =====
-- Until when an item is a spoiler.
use sekai_master_api.Prelude.{
  ℕ, true, false, ◌≤◌, ◌<◌, none, some, List, [], ◌∷◌, ltb, ◌&&◌, if◌then◌else◌, ◌≡◌, refl, sym,
  ◌∙◌, inl, inr, arith, Bool-cases, le_trans, lt→ltb,
}
use sekai_master_api.Prelude.Text.{Bytes}
use sekai_master_api.Masterdata.Json.{Fields, Runtime, get}
use sekai_master_api.Usecase.EventTime.{Clock}
use sekai_master_api.Http.Spoilers.{
  spoiler_timestamp_keys, timestamp_of, any_ahead, is_spoiler_item, latest_ahead, spoiler_reveal_at,
}

module _ {F : Type 0} (runtime : Runtime F) (clock : Clock F) where
  abbrev time_of : Bytes → Fields F → ℕ
  time_of key item = timestamp_of runtime clock (get key item)

  pub any_ahead-later :
      (keys : List Bytes) (item : Fields F) (now t : ℕ)
      → now ≤ t
      → any_ahead runtime clock keys item now ≡ false
      → any_ahead runtime clock keys item t ≡ false
  unfolding any_ahead
  any_ahead-later [] item now t h e = refl
  any_ahead-later (key ∷ keys) item now t h e = ground (arith, any_ahead-later keys item now t h)

  pub latest_ahead-le :
      (keys : List Bytes) (item : Fields F) (now latest : ℕ)
      → latest ≤ latest_ahead runtime clock keys item now latest
  unfolding latest_ahead
  latest_ahead-le [] item now latest = omega arith
  latest_ahead-le (key ∷ keys) item now latest =
      let step : latest ≤ (
          if ltb now (time_of key item) && ltb latest (time_of key item)
          then time_of key item
          else latest) =
        ground arith in
      le_trans step (latest_ahead-le keys item now _)

  before_latest :
      (keys : List Bytes) (item : Fields F) (now latest t : ℕ)
      → latest ≤ t
      → t < latest_ahead runtime clock keys item now latest
      → any_ahead runtime clock keys item t ≡ true
  unfolding latest_ahead any_ahead
  before_latest [] item now latest t h k = absurd (omega (arith, h, k))
  before_latest (key ∷ keys) item now latest t h k = elim (Bool-cases (ltb t (time_of key item))) [
    | inl e ↦ rw e refl
    | inr e ↦ rw e (before_latest keys item now _ t (ground (arith, h, e)) k)
  ]

  any_ahead-latest :
      (keys : List Bytes) (item : Fields F) (now latest : ℕ)
      → any_ahead runtime clock keys item now ≡ true
      → now < latest_ahead runtime clock keys item now latest
  unfolding latest_ahead any_ahead
  any_ahead-latest [] item now latest e = absurd cc
  any_ahead-latest (key ∷ keys) item now latest e =
      let next : ℕ =
        if ltb now (time_of key item) && ltb latest (time_of key item)
        then time_of key item
        else latest in
      elim (Bool-cases (ltb now (time_of key item))) [
        | inl f ↦
            let reached : now < next = ground arith in
            omega (arith, reached, latest_ahead-le keys item now next)
        | inr f ↦ any_ahead-latest keys item now next (sym (rw f refl) ∙ e)
      ]

  -- Until the moment that the source computes, a spoiler stays one.
  abbrev pub latest_of : Fields F → ℕ → ℕ
  latest_of item now = latest_ahead runtime clock spoiler_timestamp_keys item now 0

  pub spoiler_until :
      (item : Fields F) (now t : ℕ)
      → t < latest_of item now
      → is_spoiler_item runtime clock item t ≡ true
  unfolding is_spoiler_item
  spoiler_until item now t k = before_latest spoiler_timestamp_keys item now 0 t (omega arith) k

  pub spoiler_reveal_at-Some :
      (item : Fields F) (now : ℕ)
      → is_spoiler_item runtime clock item now ≡ true
      → (spoiler_reveal_at runtime clock item now ≡ some (latest_of item now))
        × (now < latest_of item now)
  unfolding is_spoiler_item spoiler_reveal_at
  spoiler_reveal_at-Some item now e =
      let later : now < latest_of item now = any_ahead-latest spoiler_timestamp_keys item now 0 e in
      let positive : ltb 0 (latest_of item now) ≡ true = lt→ltb 0 _ (omega (arith, later)) in
      (rw (e, positive) refl, later)

  pub spoiler_reveal_at-None :
      (item : Fields F) (now : ℕ)
      → is_spoiler_item runtime clock item now ≡ false
      → spoiler_reveal_at runtime clock item now ≡ none
  unfolding spoiler_reveal_at
  spoiler_reveal_at-None item now e = rw e refl
