-- ===== src/Usecase/Region/RateLimit.antt =====
-- `isRateLimitError`: whether a loader's message tells of a rate limit.
use sekai_master_api.Prelude.{
  Bool, true, false, ◌&&◌, ◌||◌, List, [], ◌∷◌, ◌==◌, ◌≡◌, refl, if◌then◌else◌, length,
}
use sekai_master_api.Prelude.Text.{Bytes, codes, trim_space, to_lower}

unfoldable pub has_prefix : Bytes → Bytes → Bool
has_prefix s [] = true
has_prefix [] (c ∷ p) = false
has_prefix (d ∷ s) (c ∷ p) = d == c && has_prefix s p

-- `strings.Contains`.
unfoldable pub contains : Bytes → Bytes → Bool
unfolding has_prefix
contains [] p = has_prefix [] p
contains (c ∷ s) p = has_prefix (c ∷ s) p || contains s p

keywords : List Bytes
keywords =
    codes "rate limit"
    ∷ codes "rate-limit"
    ∷ codes "api rate limit exceeded"
    ∷ codes "too many requests"
    ∷ codes "status code 429"
    ∷ codes "http 429"
    ∷ []

contains_one : Bytes → List Bytes → Bool
unfolding contains
contains_one message [] = false
contains_one message (k ∷ rest) = if contains message k then true else contains_one message rest

unfoldable pub is_rate_limit_error : Bytes → Bool
unfolding contains_one keywords
is_rate_limit_error error =
    let message = to_lower (trim_space error) in
    if length message == 0 then false else contains_one message keywords

rate_limit_test : is_rate_limit_error (codes "GitHub: HTTP 429 returned") ≡ true
unfolding is_rate_limit_error trim_space to_lower
rate_limit_test = refl
