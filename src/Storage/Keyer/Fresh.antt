-- ===== src/Storage/Keyer/Fresh.antt =====
-- A key that the fallback gives is given to no later record.
use sekai_master_api.Prelude.{
  ℕ, ◌+◌, ◌<◌, true, Option, none, some, List, [], ◌∷◌, ◌++◌, ◌==◌, if◌then◌else◌, append-nil, ◌≡◌,
  ◌≢◌, refl, sym, ap, ◌∙◌, arith, length, length-append, All, inl, inr, Bool-cases, ◌⊎◌,
}
use sekai_master_api.Prelude.Text.{Bytes, same, same→eq, same_refl}
use sekai_master_api.Prelude.Decimal.{itoa, itoa-injective}
use sekai_master_api.Prelude.Framing.{append_unique}
use sekai_master_api.Masterdata.Json.{Runtime}
use sekai_master_api.Masterdata.RecordKey.{
  uses_composite_key, composite_record_key, auto_record_key, composite_key_prefix, auto_key_prefix,
}
use sekai_master_api.Masterdata.RecordKey.Composite.{composite_record_key_prefix}
use sekai_master_api.Storage.Keyer.{
  Occurrences, occurrences_of, set_occurrences, RecordKeyer, fallback_text, fallback_key,
  or_fallback, Fed, fed_record, fed_body, keys,
}
use sekai_master_api.Masterdata.RecordKey.Raw.{
  Decoder, composite_record_key_from_raw, composite_record_key_from_raw-prefix,
}

pub occurrences_of-set :
    (k j : Bytes) (n : ℕ) (m : Occurrences)
    → occurrences_of j (set_occurrences k n m) ≡ (if same k j then n else occurrences_of j m)
unfolding occurrences_of set_occurrences
occurrences_of-set k j n [] = refl
occurrences_of-set k j n ((i, x) ∷ m) = elim (Bool-cases (same i k)) [
  | inl e ↦ rw e (ground (arith, same→eq i k e))
  | inr e ↦ elim (Bool-cases (same k j)) [
    | inl f ↦ rw (e, f) (ground (arith, occurrences_of-set k j n m, same→eq k j f))
    | inr f ↦ rw (e, f) (ground (arith, occurrences_of-set k j n m))
  ]
]

-- The suffix of an occurrence.
suffix : ℕ → Bytes
suffix n = if n == 0 then [] else 58 ∷ itoa n

suffix_injective : (n m : ℕ) → suffix n ≡ suffix m → n ≡ m
unfolding suffix
suffix_injective n m h = ground (arith, itoa-injective n m)

fallback_text-suffix : (b : Bytes) (n : ℕ) → fallback_text b n ≡ b ++ suffix n
unfolding fallback_text suffix
fallback_text-suffix b n = elim (Bool-cases (n == 0)) [
  | inl e ↦ rw e (sym (append-nil b))
  | inr e ↦ rw e
]

module _ {F : Type 0} (go : Runtime F)
    (digest_length : (b : Bytes) → length (go.sha256_hex b) ≡ 64) where
  abbrev base : Bytes → Bytes
  base body = auto_record_key go body

  base_cases :
      (body : Bytes) → (base body ≡ []) ⊎ (base body ≡ auto_key_prefix ++ go.sha256_hex body)
  unfolding auto_record_key
  base_cases body = elim (Bool-cases (length body == 0)) [ inl e ↦ inl (rw e) | inr e ↦ inr (rw e) ]

  auto_not_suffix : (h : Bytes) (n m : ℕ) → (auto_key_prefix ++ h) ++ suffix n ≡ suffix m → ⊥
  unfolding auto_key_prefix suffix
  auto_not_suffix h n m e = ground arith

  length-auto :
      (a b : Bytes)
      → length (auto_key_prefix ++ go.sha256_hex a) ≡ length (auto_key_prefix ++ go.sha256_hex b)
  length-auto a b = omega (
    arith,
    length-append {0} auto_key_prefix (go.sha256_hex a),
    length-append {0} auto_key_prefix (go.sha256_hex b),
    digest_length a,
    digest_length b,
  )

  suffixed_injective :
      (a b : Bytes) (n m : ℕ)
      → base a ++ suffix n ≡ base b ++ suffix m
      → (base a ≡ base b) × (n ≡ m)
  suffixed_injective a b n m h = elim (base_cases a) [
    | inl ea ↦ elim (base_cases b) [
      | inl eb ↦ (
        ea ∙ sym eb,
        suffix_injective n m (sym (ap (λ x. x ++ suffix n) ea) ∙ h ∙ ap (λ x. x ++ suffix m) eb),
      )
      | inr eb ↦ absurd (
          auto_not_suffix (go.sha256_hex b) m n
            (sym (sym (ap (λ x. x ++ suffix n) ea) ∙ h ∙ ap (λ x. x ++ suffix m) eb)))
    ]
    | inr ea ↦ elim (base_cases b) [
      | inl eb ↦ absurd (
          auto_not_suffix (go.sha256_hex a) n m
            (sym (ap (λ x. x ++ suffix n) ea) ∙ h ∙ ap (λ x. x ++ suffix m) eb))
      | inr eb ↦
          let both =
            append_unique (auto_key_prefix ++ go.sha256_hex a) (auto_key_prefix ++ go.sha256_hex b)
              (suffix n) (suffix m) (length-auto a b)
              (sym (ap (λ x. x ++ suffix n) ea) ∙ h ∙ ap (λ x. x ++ suffix m) eb) in
          (ea ∙ both.0 ∙ sym eb, suffix_injective n m both.1)
    ]
  ]

  -- The fallback keys of two occurrences are equal only if the base keys and the counts are.
  pub fallback_text_injective :
      (a b : Bytes) (n m : ℕ)
      → fallback_text (base a) n ≡ fallback_text (base b) m
      → (base a ≡ base b) × (n ≡ m)
  fallback_text_injective a b n m h =
      suffixed_injective a b n m
        (sym (fallback_text-suffix (base a) n) ∙ h ∙ fallback_text-suffix (base b) m)

  composite_not_suffixed :
      (b : Bytes) (n : ℕ) (rest : Bytes) → composite_key_prefix ++ rest ≡ base b ++ suffix n → ⊥
  unfolding composite_key_prefix auto_key_prefix suffix
  composite_not_suffixed b n rest e = elim (base_cases b) [
    | inl eb ↦ ground (arith, e ∙ ap (λ x. x ++ suffix n) eb)
    | inr eb ↦ ground (arith, e ∙ ap (λ x. x ++ suffix n) eb)
  ]

  -- The composite key of a record, if it has one.
  composite_of : Decoder F → Bytes → Fed F → Option Bytes
  composite_of json entity (fed_record r body) = composite_record_key go entity r
  composite_of json entity (fed_body body) = composite_record_key_from_raw go json entity body

  composite_of-prefix :
      (json : Decoder F) (entity : Bytes) (fed : Fed F) (k : Bytes)
      → composite_of json entity fed ≡ some k
      → (rest : Bytes) × (k ≡ composite_key_prefix ++ rest)
  unfolding composite_of
  composite_of-prefix json entity (fed_record r body) k h =
      composite_record_key_prefix go entity r k h
  composite_of-prefix json entity (fed_body body) k h =
      composite_record_key_from_raw-prefix go json entity body k h

  -- No composite key is a fallback key.
  composite-ne-fallback :
      (json : Decoder F) (entity : Bytes) (fed : Fed F) (k b : Bytes) (n : ℕ)
      → composite_of json entity fed ≡ some k
      → k ≢ fallback_text (base b) n
  composite-ne-fallback json entity fed k b n h e =
      let (rest, begins) = composite_of-prefix json entity fed k h in
      composite_not_suffixed b n rest (sym begins ∙ e ∙ fallback_text-suffix (base b) n)

  abbrev body_of : Fed F → Bytes
  body_of (fed_record r body) = body
  body_of (fed_body body) = body

  -- The keys behind the first, whatever gave it.
  abbrev followed : Decoder F → List (Fed F) → RecordKeyer × Bytes → List Bytes
  followed json rest step = step.1 ∷ keys go json step.0 rest

  keys_step :
      (json : Decoder F) (keyer : RecordKeyer) (fed : Fed F) (rest : List (Fed F))
      → uses_composite_key keyer.entity ≡ true
      → keys go json keyer (fed ∷ rest)
        ≡ followed json rest
            (or_fallback go keyer (body_of fed) (composite_of json keyer.entity fed))
  unfolding keys composite_of
  keys_step json keyer (fed_record r body) rest uses = rw uses
  keys_step json keyer (fed_body body) rest uses = rw uses

  fallback_step :
      (keyer : RecordKeyer) (body : Bytes)
      → (fallback_key go keyer body).1
        ≡ fallback_text (base body) (occurrences_of (base body) keyer.fallback_occurrences)
  unfolding fallback_key
  fallback_step keyer body = refl

  fallback_counts :
      (keyer : RecordKeyer) (body b : Bytes)
      → occurrences_of (base b) (fallback_key go keyer body).0.fallback_occurrences ≡ (
          if same (base body) (base b)
          then occurrences_of (base body) keyer.fallback_occurrences + 1
          else occurrences_of (base b) keyer.fallback_occurrences)
  fallback_counts keyer body b =
      unfold fallback_key in
      occurrences_of-set (base body) (base b)
        (occurrences_of (base body) keyer.fallback_occurrences + 1) keyer.fallback_occurrences

  fallback_entity :
      (keyer : RecordKeyer) (body : Bytes) → (fallback_key go keyer body).0.entity ≡ keyer.entity
  unfolding fallback_key
  fallback_entity keyer body = refl

  module _ (json : Decoder F) (b : Bytes) (n : ℕ) where
    abbrev Avoids : List Bytes → Type 0
    Avoids = All (λ k. k ≢ fallback_text (base b) n)

    abbrev Counted : RecordKeyer → Type 0
    Counted keyer = n < occurrences_of (base b) keyer.fallback_occurrences

    fallback_differs :
        (keyer : RecordKeyer) (body : Bytes)
        → Counted keyer
        → (fallback_key go keyer body).1 ≢ fallback_text (base b) n
    fallback_differs keyer body below e =
        let counts = occurrences_of (base body) keyer.fallback_occurrences in
        let (same_base, same_count) =
          fallback_text_injective body b counts n (sym (fallback_step keyer body) ∙ e) in
        let moved : counts ≡ occurrences_of (base b) keyer.fallback_occurrences =
          ap (λ x. occurrences_of x keyer.fallback_occurrences) same_base in
        omega arith

    fallback_keeps :
        (keyer : RecordKeyer) (body : Bytes)
        → Counted keyer
        → Counted (fallback_key go keyer body).0
    fallback_keeps keyer body below =
        rw (fallback_counts keyer body b) (elim (Bool-cases (same (base body) (base b))) [
          | inl e ↦
              let moved : occurrences_of (base body) keyer.fallback_occurrences
                  ≡ occurrences_of (base b) keyer.fallback_occurrences =
                ap (λ x. occurrences_of x keyer.fallback_occurrences) (same→eq _ _ e) in
              rw e (omega arith)
          | inr e ↦ rw e below
        ])

    avoid_step :
        (keyer : RecordKeyer) (fed : Fed F) (rest : List (Fed F))
        → Counted keyer
        → uses_composite_key keyer.entity ≡ true
        → ((next : RecordKeyer)
            → uses_composite_key next.entity ≡ true
            → Counted next
            → Avoids (keys go json next rest))
        → (o : Option Bytes) → composite_of json keyer.entity fed ≡ o
        → Avoids (followed json rest (or_fallback go keyer (body_of fed) o))
    avoid_step keyer fed rest below uses ih none e =
        unfold or_fallback in
        (
          fallback_differs keyer (body_of fed) below,
          ih (fallback_key go keyer (body_of fed)).0 (rw (fallback_entity keyer (body_of fed)) uses)
              (fallback_keeps keyer (body_of fed) below),
        )
    avoid_step keyer fed rest below uses ih (some k) e =
        unfold or_fallback in
        (composite-ne-fallback json keyer.entity fed k b n e, ih keyer uses below)

    keys_avoid :
        (keyer : RecordKeyer) (rs : List (Fed F))
        → uses_composite_key keyer.entity ≡ true
        → Counted keyer
        → Avoids (keys go json keyer rs)
    keys_avoid keyer [] uses below = unfold keys in tt
    keys_avoid keyer (fed ∷ rest) uses below = rw (keys_step json keyer fed rest uses) (
        avoid_step keyer fed rest below uses (λ next u c. keys_avoid next rest u c)
          (composite_of json keyer.entity fed) refl)

  -- Of an entity with composite keys: the key that a fallback gives to a record is given to no
  -- record after it, by the fallback or as a composite key, whether the store feeds the records
  -- decoded (`key`) or as their bodies (`keyFromRaw`). (SHA-256 in hexadecimal has 64 digits.)
  pub fallback_key_fresh :
      (json : Decoder F) (keyer : RecordKeyer) (body : Bytes) (rs : List (Fed F))
      → uses_composite_key keyer.entity ≡ true
      → All
          (λ k. k ≢ (fallback_key go keyer body).1)
          (keys go json (fallback_key go keyer body).0 rs)
  fallback_key_fresh json keyer body rs uses =
      let count = occurrences_of (base body) keyer.fallback_occurrences in
      rw (fallback_step keyer body) (
        keys_avoid json body count (fallback_key go keyer body).0 rs
          (rw (fallback_entity keyer body) uses)
          (rw (fallback_counts keyer body body, same_refl (base body)) (omega arith)))
