-- ===== src/Http/Spoilers/Examples.antt =====
-- A list with a spoiler.
use sekai_master_api.Prelude.{
  length, ◌⊎◌, ℕ, ◌<◌, sym, ap, ◌∙◌, true, none, some, [], ◌∷◌, ◌≡◌, refl, arith, some_inj,
}
use sekai_master_api.Prelude.Text.{codes, same}
use sekai_master_api.Masterdata.Json.{ℤ, Value, Fields, Runtime, get}
use sekai_master_api.Usecase.EventTime.{Clock, normalized, normalize_epoch_timestamp}
use sekai_master_api.Http.Spoilers.{
  Hint, parse_timestamp_millis, valid_until, any_ahead, is_spoiler_item, filter_spoiler_items,
  latest_ahead, spoiler_reveal_at, earliest_reveal, filter_spoiler_items_context,
}
use sekai_master_api.Http.Spoilers.Tight.{filter_spoiler_items_context-changes}
use sekai_master_api.Http.Spoilers.Steady.{filter_spoiler_items_context-steady}

abbrev runtime : Runtime ℕ
runtime = record {
  finite = λ f. true;
  format64 = λ f. [];
  format32 = λ f. [];
  parse_float = λ s. none;
  print = λ v. [];
  sha256_hex = λ b. [];
}

abbrev clock : Clock ℕ
clock = record { to_int64 = λ f. ℤ.pos f; parse_time = λ layout text. none }

abbrev announced : Fields ℕ
announced = Fields.field (codes "publishedAt") (Value.int (ℤ.pos 1700000000000)) Fields.end

abbrev known : Fields ℕ
known = Fields.field (codes "publishedAt") (Value.int (ℤ.pos 1600000000)) Fields.end

reported :
    filter_spoiler_items_context runtime clock (announced ∷ known ∷ []) 1650000000000 none
    ≡ (known ∷ [], some 1700000000000)
unfolding filter_spoiler_items_context filter_spoiler_items earliest_reveal spoiler_reveal_at
    is_spoiler_item any_ahead latest_ahead parse_timestamp_millis valid_until normalized
    normalize_epoch_timestamp get same
reported = refl

filter_spoiler_items_context-steady_example :
    filter_spoiler_items runtime clock (announced ∷ known ∷ []) 1690000000000
    ≡ (filter_spoiler_items_context runtime clock (announced ∷ known ∷ []) 1650000000000 none).0
filter_spoiler_items_context-steady_example =
    filter_spoiler_items_context-steady runtime clock (announced ∷ known ∷ []) 1650000000000
      1690000000000 none (omega arith) (λ u e. before u e)
  where
    before :
        (u : ℕ)
        → (filter_spoiler_items_context runtime clock (announced ∷ known ∷ []) 1650000000000 none).1
          ≡ some u
        → 1690000000000 < u
    before u e =
        let moment : 1700000000000 ≡ u = some_inj _ _ (sym (ap (λ r. r.1) reported) ∙ e) in
        omega (arith, moment)

filter_spoiler_items_context-changes_example :
    (◌≡◌ {A = Hint} none (some 1700000000000))
    ⊎ (length
          (filter_spoiler_items_context runtime clock (announced ∷ known ∷ []) 1650000000000 none).0
        < length (filter_spoiler_items runtime clock (announced ∷ known ∷ []) 1700000000000))
filter_spoiler_items_context-changes_example =
    filter_spoiler_items_context-changes runtime clock (announced ∷ known ∷ []) 1650000000000
      1700000000000 none (ap (λ r. r.1) reported)
