-- ===== src/Masterdata/Index/Keys/Lookup.antt =====
-- A record is found by an index lookup exactly when it carries the values of the lookup.
use sekai_master_api.Prelude.{
  ℕ, suc, true, false, Option, none, some, List, [], ◌∷◌, map, ◌≡◌, ◌↔◌, inl, inr, refl, sym, ap,
  ◌∙◌, arith, Bool-cases, subst, length, ◌==◌, some_inj,
}
use sekai_master_api.Prelude.Text.{Bytes}
use sekai_master_api.Prelude.Split.{split}
use sekai_master_api.Prelude.Members.{In}
use sekai_master_api.Masterdata.Json.{Value, Fields, Runtime}
use sekai_master_api.Masterdata.RecordKey.{canonical_key_part}
use sekai_master_api.Masterdata.Index.Paths.{path_values}
use sekai_master_api.Masterdata.Index.Keys.{
  append_index_key_part, field_parts, with_prefixes, extend_keys, or_nil, field_index_keys,
  index_keys, keys_by, parse_element_index, extend_key, lookup_key_from, index_lookup_key,
}
use sekai_master_api.Masterdata.Index.Keys.Distinct.{In-distinct}
use sekai_master_api.Masterdata.Index.Keys.Parts.{
  Chosen, fold_key, fold_key_injective, parts_of-In, In-parts_of, with_prefixes-In,
  In-with_prefixes,
}

length-Chosen : (pss : List (List Bytes)) (ps : List Bytes) → Chosen pss ps → length ps ≡ length pss
length-Chosen [] [] h = refl
length-Chosen [] (p ∷ ps) h = absurd h
length-Chosen (parts ∷ pss) [] h = absurd h
length-Chosen (parts ∷ pss) (p ∷ ps) h = ap suc (length-Chosen pss ps h.1)

module _ {F : Type 0} (go : Runtime F) (r : Fields F) where
  abbrev all_parts : List Bytes → List (List Bytes)
  all_parts fields = map (field_parts go r) fields

  -- A key that is collected from `keys` on.
  abbrev Collected : ℕ → List Bytes → List Bytes → Bytes → Type 0
  Collected count keys fields k =
      (q : Bytes) × In q keys
      × ((ps : List Bytes) × Chosen (all_parts fields) ps × (k ≡ fold_key count q ps))

  none_chosen : (parts : List Bytes) → (length parts == 0) ≡ true → (p : Bytes) → In p parts → ⊥
  none_chosen [] e p h = h
  none_chosen (x ∷ parts) e p h = ground arith

  extend_step :
      (count : ℕ) (keys fields : List Bytes) (name : Bytes)
      → (length (field_parts go r name) == 0) ≡ false
      → extend_keys go r count keys (name ∷ fields)
        ≡ extend_keys go r count (with_prefixes go keys (field_parts go r name) count) fields
  unfolding extend_keys
  extend_step count keys fields name e = rw e

  extend_stop :
      (count : ℕ) (keys fields : List Bytes) (name : Bytes)
      → (length (field_parts go r name) == 0) ≡ true
      → extend_keys go r count keys (name ∷ fields) ≡ none
  unfolding extend_keys
  extend_stop count keys fields name e = rw e

  abbrev Among : Bytes → Option (List Bytes) → Type 0
  Among k none = ⊥
  Among k (some ks) = In k ks

  extend-In :
      (count : ℕ) (keys fields : List Bytes) (k : Bytes)
      → Among k (extend_keys go r count keys fields)
      → Collected count keys fields k
  extend-In count keys [] k h = (k, unfold extend_keys in h, ([], tt, refl))
  extend-In count keys (name ∷ fields) k h =
      elim (Bool-cases (length (field_parts go r name) == 0)) [
        | inl e ↦ absurd (subst (Among k) (extend_stop count keys fields name e) h)
        | inr e ↦
            let (q', mq, (ps, chosen, same_key)) =
              extend-In count (with_prefixes go keys (field_parts go r name) count) fields k
                (subst (Among k) (extend_step count keys fields name e) h) in
            let (q, member, (p, mp, made)) =
              with_prefixes-In go keys (field_parts go r name) count q' mq in
            (q, member, (p ∷ ps, (mp, chosen), same_key ∙ ap (λ x. fold_key count x ps) made))
      ]

  In-extend :
      (count : ℕ) (keys fields : List Bytes) (q : Bytes) (ps : List Bytes)
      → In q keys
      → Chosen (all_parts fields) ps
      → Among (fold_key count q ps) (extend_keys go r count keys fields)
  In-extend count keys [] q [] mq h = unfold extend_keys in mq
  In-extend count keys [] q (p ∷ ps) mq h = absurd h
  In-extend count keys (name ∷ fields) q [] mq h = absurd h
  In-extend count keys (name ∷ fields) q (p ∷ ps) mq h =
      elim (Bool-cases (length (field_parts go r name) == 0)) [
        | inl e ↦ absurd (none_chosen (field_parts go r name) e p h.0)
        | inr e ↦
            subst (Among (fold_key count q (p ∷ ps))) (sym (extend_step count keys fields name e)) (
              In-extend count (with_prefixes go keys (field_parts go r name) count) fields
                (append_index_key_part q p count) ps
                (In-with_prefixes go keys (field_parts go r name) count q p mq h.0) h.1)
      ]

  or_nil-In : (o : Option (List Bytes)) (k : Bytes) → In k (or_nil go o) ↔ Among k o
  unfolding or_nil
  or_nil-In none k = ((λ h. h), (λ h. h))
  or_nil-In (some ks) k = In-distinct ks k

  field_index_keys-In :
      (fields : List Bytes) (k : Bytes)
      → In k (field_index_keys go r fields)
        ↔ ((ps : List Bytes) × Chosen (all_parts fields) ps × (k ≡ fold_key (length fields) [] ps))
  unfolding field_index_keys
  field_index_keys-In fields k =
      let keys = extend_keys go r (length fields) ([] ∷ []) fields in
      (
        (λ h.
            let (q, mq, (ps, chosen, made)) =
              extend-In (length fields) ([] ∷ []) fields k ((or_nil-In keys k).0 h) in
            (ps, chosen, made ∙ ap (λ x. fold_key (length fields) x ps) (only q mq))),
        (λ p. (or_nil-In keys k).1 (
            subst (λ x. Among x keys) (sym p.2)
              (In-extend (length fields) ([] ∷ []) fields [] p.0 (inl refl) p.1))),
      )
    where
      only : (q : Bytes) → In q ([] ∷ []) → q ≡ []
      only q (inl e) = e
      only q (inr m) = absurd m

module _ {F : Type 0} (go : Runtime F) where
  -- The canonical parts of the values of a lookup.
  abbrev AllParts : List (Value F) → List Bytes → Type 0
  AllParts [] [] = Unit
  AllParts (v ∷ vs) (p ∷ ps) = (canonical_key_part go v ≡ some p) × AllParts vs ps
  AllParts _ _ = ⊥

  from_none :
      (count : ℕ) (vs : List (Value F)) (k : Bytes) → lookup_key_from go count none vs ≡ some k → ⊥
  unfolding lookup_key_from
  from_none count [] k h = cc
  from_none count (v ∷ vs) k h = from_none count vs k h

  lookup_parts :
      (count : ℕ) (key : Bytes) (vs : List (Value F)) (k : Bytes)
      → lookup_key_from go count (some key) vs ≡ some k
      → (ps : List Bytes) × AllParts vs ps × (k ≡ fold_key count key ps)
  lookup_parts count key [] k h = ([], tt, some_inj k key (sym (unfold lookup_key_from in h)))
  lookup_parts count key (v ∷ vs) k h =
      next (canonical_key_part go v) refl (unfold lookup_key_from in h)
        (λ x. lookup_parts count x vs k)
    where
      next :
          (o : Option Bytes)
          → canonical_key_part go v ≡ o
          → lookup_key_from go count (extend_key go count key o) vs ≡ some k
          → ((x : Bytes)
              → lookup_key_from go count (some x) vs ≡ some k
              → (ps : List Bytes) × AllParts vs ps × (k ≡ fold_key count x ps))
          → (ps : List Bytes) × AllParts (v ∷ vs) ps × (k ≡ fold_key count key ps)
      next none e h ih = absurd (from_none count vs k (unfold extend_key in h))
      next (some p) e h ih =
          let (ps, parts, made) = ih (append_index_key_part key p count) (unfold extend_key in h) in
          (p ∷ ps, (e, parts), made)

  -- For each field the record reaches a value with the same canonical part as the lookup's value.
  abbrev pub Carries : Fields F → List Bytes → List (Value F) → Type 0
  Carries r [] [] = Unit
  Carries r (name ∷ fields) (v ∷ vs) =
      ((w : Value F) × In w (path_values r (split 46 name))
        × (canonical_key_part go w ≡ canonical_key_part go v))
      × Carries r fields vs
  Carries r _ _ = ⊥

  Carries-Chosen :
      (r : Fields F) (fields : List Bytes) (vs : List (Value F)) (ps : List Bytes)
      → AllParts vs ps
      → Carries r fields vs ↔ Chosen (all_parts go r fields) ps
  Carries-Chosen r [] [] [] h = ((λ x. x), (λ x. x))
  Carries-Chosen r [] [] (p ∷ ps) h = absurd h
  Carries-Chosen r [] (v ∷ vs) [] h = absurd h
  Carries-Chosen r [] (v ∷ vs) (p ∷ ps) h = ((λ x. x), (λ x. x))
  Carries-Chosen r (name ∷ fields) [] [] h = ((λ x. x), (λ x. x))
  Carries-Chosen r (name ∷ fields) [] (p ∷ ps) h = absurd h
  Carries-Chosen r (name ∷ fields) (v ∷ vs) [] h = absurd h
  Carries-Chosen r (name ∷ fields) (v ∷ vs) (p ∷ ps) h =
      let ih = Carries-Chosen r fields vs ps h.1 in
      (
        (λ c. (
          unfold field_parts in
              In-parts_of go (path_values r (split 46 name)) p (c.0.0, c.0.1, c.0.2 ∙ h.0),
          ih.0 c.1,
        )),
        (λ c.
            let (w, member, e) =
              parts_of-In go (path_values r (split 46 name)) p (unfold field_parts in c.0) in
            ((w, member, e ∙ sym h.0), ih.1 c.1)),
      )

  length-AllParts : (vs : List (Value F)) (ps : List Bytes) → AllParts vs ps → length ps ≡ length vs
  length-AllParts [] [] h = refl
  length-AllParts [] (p ∷ ps) h = absurd h
  length-AllParts (v ∷ vs) [] h = absurd h
  length-AllParts (v ∷ vs) (p ∷ ps) h = ap suc (length-AllParts vs ps h.1)

  length-all_parts :
      (r : Fields F) (fields : List Bytes) → length (all_parts go r fields) ≡ length fields
  length-all_parts r [] = refl
  length-all_parts r (name ∷ fields) = ap suc (length-all_parts r fields)

  lookup-eq :
      (vs : List (Value F)) (k : Bytes)
      → index_lookup_key go vs ≡ some k
      → lookup_key_from go (length vs) (some []) vs ≡ some k
  lookup-eq [] k h = absurd (nothing (unfold index_lookup_key in h))
    where
      nothing : ◌≡◌ {A = Option Bytes} none (some k) → ⊥
      nothing e = cc
  lookup-eq (v ∷ vs) k h = unfold index_lookup_key in h

  -- The key of a lookup in an index of fields is among the keys that a record contributes to it
  -- exactly when for each field the record reaches a value with the same canonical part as the
  -- lookup's. The index is not one of array elements, and the lookup has a value for each field.
  pub index_keys_exact :
      (r : Fields F) (index : Bytes) (vs : List (Value F)) (k : Bytes)
      → parse_element_index index ≡ none
      → length vs ≡ length (split 44 index)
      → index_lookup_key go vs ≡ some k
      → In k (index_keys go r index) ↔ Carries r (split 44 index) vs
  index_keys_exact r index vs k plain same_length h =
      let fields = split 44 index in
      let (ps, parts, made) = lookup_parts (length vs) [] vs k (lookup-eq vs k h) in
      let both = Carries-Chosen r fields vs ps parts in
      let found = field_index_keys-In go r fields k in
      let keys : index_keys go r index ≡ field_index_keys go r fields =
        unfold index_keys in ap (keys_by go r index) plain in
      (
        (λ m.
            let (qs, chosen, made_q) = found.0 (subst (In k) keys m) in
            let equal =
              fold_key_injective (length fields) ps qs (length-AllParts vs ps parts ∙ same_length)
                (length-Chosen (all_parts go r fields) qs chosen ∙ length-all_parts r fields)
                (ap (λ n. fold_key n [] ps) (sym same_length) ∙ sym made ∙ made_q) in
            both.1 (subst (Chosen (all_parts go r fields)) (sym equal) chosen)),
        (λ c.
            subst (In k) (sym keys)
              (found.1 (ps, both.0 c, made ∙ ap (λ n. fold_key n [] ps) same_length))),
      )
