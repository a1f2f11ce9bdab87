-- ===== src/Http/ResponseCache/Examples.antt =====
-- A store that keeps a list, and a handler whose response changes once.
use sekai_master_api.Prelude.{
  ℕ, true, false, ◌+◌, ◌≤◌, ◌<◌, ◌&&◌, Option, none, some, List, [], ◌∷◌, length, ltb,
  if◌then◌else◌, ◌≡◌, ◌⊎◌, refl, sym, ◌∙◌, inl, inr, arith, Bool-cases, some_inj, map,
}
use sekai_master_api.Prelude.Text.{Bytes, codes, same, same→eq}
use sekai_master_api.Http.ResponseCache.{
  Zstd, Entry, encode_entry, decode_entry, Answer, response_of, Store, Options, handle_all,
}
use sekai_master_api.Http.ResponseCache.Entries.{decode_entry-encode}
use sekai_master_api.Http.ResponseCache.Transparent.{Ascending, handle_all-transparent}

-- Bytes as they are.
abbrev zstd : Zstd
zstd = record { compress = λ b. b; decompress = λ b. some b }

abbrev page : Entry
page = record { status = 200; content_type = codes "application/json"; body = codes "[]" }

decode_entry-encode_example : decode_entry zstd (encode_entry zstd page) ≡ some page
decode_entry-encode_example = decode_entry-encode zstd page (omega arith) (omega arith) refl

abbrev Kept : Type 0
Kept = List (Bytes × Bytes × ℕ)

look : ℕ → Bytes → Kept → Option Bytes
look now key [] = none
look now key ((name, value, expires) ∷ rest) =
    let others = look now key rest in
    if same key name && ltb now expires then some value else others

abbrev store : Store Kept
store = record { get = look; set = λ now key value ttl state. (key, value, now + ttl) ∷ state }

abbrev options : Options
options = record { ttl = 60000; max_entry_bytes = 1048576; key = codes "k" }

look-kept :
    (now later : ℕ) (key other value raw : Bytes) (ttl : ℕ) (state : Kept)
    → now ≤ later
    → look later other ((key, value, now + ttl) ∷ state) ≡ some raw
    → ((other ≡ key) × (raw ≡ value) × (later < now + ttl)) ⊎ (look later other state ≡ some raw)
unfolding look
look-kept now later key other value raw ttl state h e =
    elim (Bool-cases (same other key && ltb later (now + ttl))) [
      | inl f ↦ inl (
        same→eq other key (ground (arith, f)),
        sym (some_inj _ _ (sym (rw f refl) ∙ e)),
        ground (arith, f),
      )
      | inr f ↦ inr (sym (rw f refl) ∙ e)
    ]

-- The list grows at 70000.
abbrev handler : ℕ → Answer
handler now =
    if ltb now 70000
    then record { status = 200; content_type = []; writes = codes "1" ∷ []; hint = some 70000 }
    else record {
      status = 200;
      content_type = [];
      writes = codes "1" ∷ codes "2" ∷ [];
      hint = none;
    }

short_types : (now : ℕ) → length (handler now).content_type < 65536
short_types now = elim (Bool-cases (ltb now 70000)) [
  | inl e ↦ rw e (omega arith)
  | inr e ↦ rw e (omega arith)
]

steady :
    (now later : ℕ)
    → now ≤ later
    → ((u : ℕ) → (handler now).hint ≡ some u → later < u)
    → response_of (handler later) ≡ response_of (handler now)
steady now later h before = elim (Bool-cases (ltb now 70000)) [
  | inl e ↦
      let ahead : later < 70000 = before 70000 (rw e refl) in
      let also : ltb later 70000 ≡ true = ground (arith, ahead) in rw (e, also) refl
  | inr e ↦ let also : ltb later 70000 ≡ false = ground (arith, e, h) in rw (e, also) refl
]

handle_all-transparent_example :
    handle_all zstd store options handler (0 ∷ 69999 ∷ 70000 ∷ []) []
    ≡ map (λ t. response_of (handler t)) (0 ∷ 69999 ∷ 70000 ∷ [])
unfolding Ascending look
handle_all-transparent_example =
    handle_all-transparent zstd store options look-kept (λ body h. refl) handler short_types steady
      (0 ∷ 69999 ∷ 70000 ∷ []) [] (omega arith, (omega arith, (omega arith, tt))) (λ later. refl)
