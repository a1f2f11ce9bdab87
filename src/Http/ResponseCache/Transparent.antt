-- ===== src/Http/ResponseCache/Transparent.antt =====
-- The cache answers as the handler would.
use sekai_master_api.Prelude.{
  ℕ, Bool, true, false, ◌+◌, ◌-◌, ◌≤◌, ◌<◌, ◌||◌, not, Option, none, some, List, [], ◌∷◌, map,
  length, ltb, ◌==◌, if◌then◌else◌, ◌≡◌, ◌⊎◌, refl, sym, ◌∙◌, ap, inl, inr, arith, Bool-cases,
  some_inj, le_trans, subst, false≢true,
}
use sekai_master_api.Prelude.Text.{Bytes}
use sekai_master_api.Http.Spoilers.{Hint}
use sekai_master_api.Http.ResponseCache.{
  Zstd, Entry, encode_entry, decode_entry, Answer, joined, response_of, Store, Options, time_left,
  stored, fill, found_or, decoded, handle, handle_all,
}
use sekai_master_api.Http.ResponseCache.Entries.{decode_entry-encode}
use sekai_master_api.Http.ResponseCache.Recording.{recorded, capture_all-recorded}

time_left-Within :
    (now later ttl : ℕ) (hint : Hint)
    → now ≤ later
    → later < now + time_left now hint ttl
    → (u : ℕ) → hint ≡ some u
    → later < u
unfolding time_left
time_left-Within now later ttl none k h u e = absurd cc
time_left-Within now later ttl (some until) k h u e =
    let moment : until ≡ u = some_inj _ _ e in
    elim (Bool-cases (ltb (until - now) ttl)) [
      | inl f ↦
          let left : later < now + (until - now) = subst (λ n. later < now + n) (rw f refl) h in
          omega (arith, left, moment, k)
      | inr f ↦
          let left : later < now + ttl = subst (λ n. later < now + n) (rw f refl) h in
          ground (arith, left, moment, k, f)
    ]

recorded-Kept :
    (body : Bytes) (limit : ℕ)
    → (recorded body limit).overflow ≡ false
    → ((recorded body limit).body ≡ body) × (length body ≤ limit)
recorded-Kept body limit h = elim (Bool-cases (ltb limit (length body))) [
  | inl e ↦ absurd (false≢true (sym h ∙ rw e refl))
  | inr e ↦ (rw e refl, ground arith)
]

-- Moments in order, from the first one on.
unfoldable pub Ascending : ℕ → List ℕ → Type 0
Ascending from [] = Unit
Ascending from (moment ∷ moments) = (from ≤ moment) × Ascending moment moments

module _ {S : Type 0} (zstd : Zstd) (store : Store S) (options : Options)
    (kept : (now later : ℕ) (key other value raw : Bytes) (ttl : ℕ) (state : S)
      → now ≤ later
      → store.get later other (store.set now key value ttl state) ≡ some raw
      → ((other ≡ key) × (raw ≡ value) × (later < now + ttl))
        ⊎ (store.get later other state ≡ some raw))
    (lossless : (body : Bytes)
      → length body ≤ options.max_entry_bytes
      → zstd.decompress (zstd.compress body) ≡ some body)
    (handler : ℕ → Answer) (types : (now : ℕ) → length (handler now).content_type < 65536)
    (steady : (now later : ℕ)
      → now ≤ later
      → ((u : ℕ) → (handler now).hint ≡ some u → later < u)
      → response_of (handler later) ≡ response_of (handler now)) where
  -- What the store gives is the response of the handler at that moment.
  abbrev Current : ℕ → S → Type 0
  Current now state =
      (later : ℕ)
      → now ≤ later
      → (raw : Bytes) → store.get later options.key state ≡ some raw
      → decode_entry zstd raw ≡ some (response_of (handler later))

  either :
      (now : ℕ) (one other : S) (b : Bool)
      → (b ≡ true → Current now one)
      → (b ≡ false → Current now other)
      → Current now (if b then one else other)
  either now one other true p q = p refl
  either now one other false p q = q refl

  abbrev entry_at : ℕ → Entry
  entry_at now = record {
    status = 200;
    content_type = (handler now).content_type;
    body = (recorded (joined (handler now).writes) options.max_entry_bytes).body;
  }

  set-Current :
      (now : ℕ) (state : S)
      → Current now state
      → (not ((handler now).status == 200)
          || (recorded (joined (handler now).writes) options.max_entry_bytes).overflow)
        ≡ false
      → Current now (
          store.set now options.key
            (encode_entry zstd (entry_at now))
            (time_left now (handler now).hint options.ttl)
            state)
  unfolding response_of
  set-Current now state current fine later h raw got =
      let whole : ((recorded (joined (handler now).writes) options.max_entry_bytes).body
            ≡ joined (handler now).writes)
          × (length (joined (handler now).writes) ≤ options.max_entry_bytes) =
        recorded-Kept (joined (handler now).writes) options.max_entry_bytes
          (ground (arith, fine)) in
      let good : (handler now).status ≡ 200 = ground (arith, fine) in
      let same_entry : entry_at now ≡ response_of (handler now) = rw (whole.0, good) refl in
      let read : decode_entry zstd (encode_entry zstd (entry_at now)) ≡ some (entry_at now) =
        decode_entry-encode zstd (entry_at now) (omega arith) (types now)
          (lossless _ (rw whole.0 whole.1)) in
      elim (kept now later options.key options.key _ raw _ state h got) [
        | inl new ↦
            let still : response_of (handler later) ≡ response_of (handler now) =
              steady now later h
                (time_left-Within now later options.ttl (handler now).hint h new.2) in
            ap (decode_entry zstd) new.1 ∙ read ∙ ap some (same_entry ∙ sym still)
        | inr old ↦ current later h raw old
      ]

  fill-Current :
      (now : ℕ) (state : S)
      → Current now state
      → Current now (fill zstd store options (handler now) now state)
  unfolding fill
  fill-Current now state current =
      subst
        (λ r. Current now (
          stored zstd store options (handler now) r (time_left now (handler now).hint options.ttl)
            now state))
        (sym (capture_all-recorded (handler now).writes options.max_entry_bytes))
        (either now _ _
          (not ((handler now).status == 200)
            || (recorded (joined (handler now).writes) options.max_entry_bytes).overflow)
          (λ e. current)
          (λ e.
            either now _ _ (ltb (time_left now (handler now).hint options.ttl) 1000) (λ f. current)
              (λ f. set-Current now state current e)))

  handle-lem :
      (now : ℕ) (state : S)
      → Current now state
      → ((handle zstd store options handler now state).0 ≡ response_of (handler now))
        × Current now (handle zstd store options handler now state).1
  unfolding handle
  handle-lem now state current = answered (store.get now options.key state) refl
    where
      answered :
          (got : Option Bytes)
          → store.get now options.key state ≡ got
          → ((found_or zstd store options
                (decoded zstd store options got)
                (response_of (handler now), fill zstd store options (handler now) now state)
                state).0
              ≡ response_of (handler now))
            × Current now
                (found_or zstd store options
                  (decoded zstd store options got)
                  (response_of (handler now), fill zstd store options (handler now) now state)
                  state).1
      answered none e = (refl, fill-Current now state current)
      answered (some raw) e = rw (current now (omega arith) raw e) (refl, current)

  handle_all-from :
      (from : ℕ) (moments : List ℕ) (state : S)
      → Ascending from moments
      → Current from state
      → handle_all zstd store options handler moments state
        ≡ map (λ t. response_of (handler t)) moments
  unfolding handle_all Ascending
  handle_all-from from [] state a current = refl
  handle_all-from from (now ∷ moments) state a current =
      let here : Current now state = λ later h raw e. current later (le_trans a.0 h) raw e in
      let result : ((handle zstd store options handler now state).0 ≡ response_of (handler now))
          × Current now (handle zstd store options handler now state).1 =
        handle-lem now state here in
      ap
        (λ r.
          r
          ∷ handle_all zstd store options handler moments
              (handle zstd store options handler now state).1)
        result.0
      ∙ ap (λ rs. response_of (handler now) ∷ rs) (handle_all-from now moments _ a.1 result.1)

  -- With the cache, the requests of one key get at every moment the response that the handler would
  -- give then, from the cache or not, starting with a store that holds nothing for the key. The
  -- store gives, before its time to live is over, only what was set for a key; zstd gives back the
  -- bodies up to the limit; the handler's content types are shorter than 2^16 bytes; and its response
  -- stays as it is until the moment that its hint names.
  pub handle_all-transparent :
      (moments : List ℕ) (state : S)
      → Ascending 0 moments
      → ((later : ℕ) → store.get later options.key state ≡ none)
      → handle_all zstd store options handler moments state
        ≡ map (λ t. response_of (handler t)) moments
  handle_all-transparent moments state a empty =
      handle_all-from 0 moments state a (λ later h raw e. absurd (cc (empty later, e)))
