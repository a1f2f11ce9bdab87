-- ===== src/Masterdata/Index/Keys/Parts.antt =====
-- What is among the keys that `IndexKeys` collects.
use sekai_master_api.Prelude.{
  ℕ, true, false, Option, none, some, List, [], ◌∷◌, ◌++◌, ◌≡◌, ◌⊎◌, inl, inr, refl, sym, ap, ◌∙◌,
  arith, Bool-cases, length, ◌==◌, append_assoc, append-nil, some_inj,
}
use sekai_master_api.Prelude.Text.{Bytes}
use sekai_master_api.Prelude.Framing.{frame, frames, frames_injective}
use sekai_master_api.Prelude.Members.{In, In-append_left, In-append_right, In-append_cases}
use sekai_master_api.Masterdata.Json.{Value, Runtime}
use sekai_master_api.Masterdata.RecordKey.{canonical_key_part}
use sekai_master_api.Masterdata.Index.Keys.{
  append_index_key_part, push_key, parts_of, with_parts, with_prefixes,
}

-- One part from each list.
abbrev pub Chosen : List (List Bytes) → List Bytes → Type 0
Chosen [] [] = Unit
Chosen (parts ∷ rest) (p ∷ ps) = In p parts × Chosen rest ps
Chosen _ _ = ⊥

-- The key of parts behind `key`.
abbrev pub fold_key : ℕ → Bytes → List Bytes → Bytes
fold_key count key [] = key
fold_key count key (p ∷ ps) = fold_key count (append_index_key_part key p count) ps

append_framed :
    (count : ℕ) (key p : Bytes)
    → (count == 1) ≡ false
    → append_index_key_part key p count ≡ key ++ frame p
unfolding append_index_key_part
append_framed count key p h = rw h

fold_key-frames :
    (count : ℕ) (key : Bytes) (ps : List Bytes)
    → (count == 1) ≡ false
    → fold_key count key ps ≡ key ++ frames ps
fold_key-frames count key [] h = sym (append-nil key)
fold_key-frames count key (p ∷ ps) h =
    fold_key-frames count (append_index_key_part key p count) ps h
    ∙ ap (λ x. x ++ frames ps) (append_framed count key p h)
    ∙ append_assoc key (frame p) (frames ps)

-- Keys of as many parts as the index has fields tell the parts apart.
pub fold_key_injective :
    (count : ℕ) (ps qs : List Bytes)
    → length ps ≡ count
    → length qs ≡ count
    → fold_key count [] ps ≡ fold_key count [] qs
    → ps ≡ qs
fold_key_injective count ps qs hp hq h = elim (Bool-cases (count == 1)) [
  | inl e ↦ single ps qs e hp hq h
  | inr e ↦
      frames_injective ps qs
        (sym (fold_key-frames count [] ps e) ∙ h ∙ fold_key-frames count [] qs e)
]
  where
    single :
        (ps qs : List Bytes)
        → (count == 1) ≡ true
        → length ps ≡ count
        → length qs ≡ count
        → fold_key count [] ps ≡ fold_key count [] qs
        → ps ≡ qs
    single [] qs e hp hq h = absurd (ground arith)
    single (p ∷ []) [] e hp hq h = absurd (ground arith)
    single (p ∷ []) (q ∷ []) e hp hq h =
        ap (λ x. x ∷ []) (unfold append_index_key_part in rw (e) at h)
    single (p ∷ []) (q ∷ r ∷ qs) e hp hq h = absurd (ground arith)
    single (p ∷ r ∷ ps) qs e hp hq h = absurd (ground arith)

module _ {F : Type 0} (go : Runtime F) where
  push_key-In :
      (o : Option Bytes) (rest : List Bytes) (p : Bytes)
      → In p (push_key go o rest)
      → (o ≡ some p) ⊎ In p rest
  unfolding push_key
  push_key-In none rest p h = inr h
  push_key-In (some q) rest p (inl e) = inl (ap some (sym e))
  push_key-In (some q) rest p (inr m) = inr m

  In-push_key :
      (o : Option Bytes) (rest : List Bytes) (p : Bytes)
      → (o ≡ some p) ⊎ In p rest
      → In p (push_key go o rest)
  unfolding push_key
  In-push_key none rest p (inl e) = cc
  In-push_key none rest p (inr m) = m
  In-push_key (some q) rest p (inl e) = inl (some_inj p q (sym e))
  In-push_key (some q) rest p (inr m) = inr m

  -- A value of the list whose canonical part is `p`.
  abbrev pub HasPart : List (Value F) → Bytes → Type 0
  HasPart ws p = (w : Value F) × In w ws × (canonical_key_part go w ≡ some p)

  pub parts_of-In : (ws : List (Value F)) (p : Bytes) → In p (parts_of go ws) → HasPart ws p
  parts_of-In [] p h = absurd (unfold parts_of in h)
  parts_of-In (w ∷ ws) p h =
      found (push_key-In (canonical_key_part go w) (parts_of go ws) p (unfold parts_of in h))
        (parts_of-In ws p)
    where
      found :
          (canonical_key_part go w ≡ some p) ⊎ In p (parts_of go ws)
          → (In p (parts_of go ws) → HasPart ws p)
          → HasPart (w ∷ ws) p
      found (inl e) ih = (w, inl refl, e)
      found (inr m) ih = let (v, member, e) = ih m in (v, inr member, e)

  pub In-parts_of : (ws : List (Value F)) (p : Bytes) → HasPart ws p → In p (parts_of go ws)
  unfolding parts_of
  In-parts_of [] p h = absurd h.1
  In-parts_of (v ∷ ws) p (w, inl q, e) =
      In-push_key (canonical_key_part go v) (parts_of go ws) p
        (inl (ap (canonical_key_part go) (sym q) ∙ e))
  In-parts_of (v ∷ ws) p (w, inr m, e) =
      In-push_key (canonical_key_part go v) (parts_of go ws) p (inr (In-parts_of ws p (w, m, e)))

  with_parts-In :
      (prefix : Bytes) (parts : List Bytes) (count : ℕ) (k : Bytes)
      → In k (with_parts go prefix parts count)
      → (p : Bytes) × In p parts × (k ≡ append_index_key_part prefix p count)
  unfolding with_parts
  with_parts-In prefix [] count k h = absurd h
  with_parts-In prefix (p ∷ parts) count k (inl e) = (p, inl refl, e)
  with_parts-In prefix (p ∷ parts) count k (inr m) =
      let (q, member, e) = with_parts-In prefix parts count k m in (q, inr member, e)

  In-with_parts :
      (prefix : Bytes) (parts : List Bytes) (count : ℕ) (p : Bytes)
      → In p parts
      → In (append_index_key_part prefix p count) (with_parts go prefix parts count)
  unfolding with_parts
  In-with_parts prefix [] count p h = h
  In-with_parts prefix (q ∷ parts) count p (inl e) =
      inl (ap (λ x. append_index_key_part prefix x count) e)
  In-with_parts prefix (q ∷ parts) count p (inr m) = inr (In-with_parts prefix parts count p m)

  pub with_prefixes-In :
      (keys parts : List Bytes) (count : ℕ) (k : Bytes)
      → In k (with_prefixes go keys parts count)
      → (q : Bytes) × In q keys × ((p : Bytes) × In p parts × (k ≡ append_index_key_part q p count))
  unfolding with_prefixes
  with_prefixes-In [] parts count k h = absurd h
  with_prefixes-In (q ∷ keys) parts count k h =
      elim (In-append_cases k (with_parts go q parts count) (with_prefixes go keys parts count) h) [
        | inl m ↦ (q, inl refl, with_parts-In q parts count k m)
        | inr m ↦
            let (r, member, found) = with_prefixes-In keys parts count k m in (r, inr member, found)
      ]

  pub In-with_prefixes :
      (keys parts : List Bytes) (count : ℕ) (q p : Bytes)
      → In q keys
      → In p parts
      → In (append_index_key_part q p count) (with_prefixes go keys parts count)
  unfolding with_prefixes
  In-with_prefixes [] parts count q p hq hp = hq
  In-with_prefixes (r ∷ keys) parts count q p (inl e) hp =
      In-append_left _ (with_parts go r parts count) (with_prefixes go keys parts count)
        (rw (ap (λ x. append_index_key_part x p count) e) (In-with_parts r parts count p hp))
  In-with_prefixes (r ∷ keys) parts count q p (inr m) hp =
      In-append_right _ (with_parts go r parts count) (with_prefixes go keys parts count)
        (In-with_prefixes keys parts count q p m hp)
