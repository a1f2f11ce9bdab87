-- ===== src/Masterdata/Index/Keys/Distinct.antt =====
-- `distinct` keeps each value once, and loses none.
use sekai_master_api.Prelude.{
  true, false, List, [], ◌∷◌, ◌≡◌, ◌↔◌, inl, inr, refl, sym, arith, Bool-cases, subst, ap,
}
use sekai_master_api.Prelude.Text.{Bytes, same, same→eq, same_refl}
use sekai_master_api.Prelude.Members.{In}
use sekai_master_api.Masterdata.Index.Table.{is_among}
use sekai_master_api.Masterdata.Index.Keys.{distinct_from, distinct}

-- No value of the list equals a later one.
abbrev pub Distinct : List Bytes → Type 0
Distinct [] = Unit
Distinct (x ∷ xs) = ¬ In x xs × Distinct xs

pub is_among_sound : (x : Bytes) (xs : List Bytes) → is_among x xs ≡ true → In x xs
unfolding is_among
is_among_sound x [] h = absurd (false≢ h)
  where
    false≢ : false ≡ true → ⊥
    false≢ e = cc
is_among_sound x (y ∷ xs) h = elim (Bool-cases (same y x)) [
  | inl e ↦ inl (sym (same→eq y x e))
  | inr e ↦ inr (is_among_sound x xs (rw e at h))
]

pub is_among_complete : (x : Bytes) (xs : List Bytes) → In x xs → is_among x xs ≡ true
unfolding is_among
is_among_complete x [] h = absurd h
is_among_complete x (y ∷ xs) (inl e) = rw (sym e, same_refl x)
is_among_complete x (y ∷ xs) (inr m) = ground (arith, is_among_complete x xs m)

distinct_seen :
    (v : Bytes) (seen vs : List Bytes)
    → is_among v seen ≡ true
    → distinct_from seen (v ∷ vs) ≡ distinct_from seen vs
unfolding distinct_from
distinct_seen v seen vs e = rw e

distinct_new :
    (v : Bytes) (seen vs : List Bytes)
    → is_among v seen ≡ false
    → distinct_from seen (v ∷ vs) ≡ v ∷ distinct_from (v ∷ seen) vs
unfolding distinct_from
distinct_new v seen vs e = rw e

not_among : (x v : Bytes) (seen : List Bytes) → x ≡ v → is_among v seen ≡ false → ¬ In x seen
not_among x v seen p e m = cc (is_among_complete x seen m, ap (λ y. is_among y seen) p)

-- What is kept was given, and had not been seen.
kept : (seen vs : List Bytes) (x : Bytes) → In x (distinct_from seen vs) → In x vs × (¬ In x seen)
kept seen [] x h = absurd (unfold distinct_from in h)
kept seen (v ∷ vs) x h = elim (Bool-cases (is_among v seen)) [
  | inl e ↦ let (m, n) = kept seen vs x (subst (In x) (distinct_seen v seen vs e) h) in (inr m, n)
  | inr e ↦ new e (subst (In x) (distinct_new v seen vs e) h) (kept (v ∷ seen) vs x)
]
  where
    new :
        is_among v seen ≡ false
        → In x (v ∷ distinct_from (v ∷ seen) vs)
        → (In x (distinct_from (v ∷ seen) vs) → In x vs × (¬ In x (v ∷ seen)))
        → In x (v ∷ vs) × (¬ In x seen)
    new e (inl p) ih = (inl p, not_among x v seen p e)
    new e (inr m) ih = (inr (ih m).0, λ s. (ih m).1 (inr s))

-- What was given and had not been seen is kept.
keeps : (seen vs : List Bytes) (x : Bytes) → In x vs → (¬ In x seen) → In x (distinct_from seen vs)
keeps seen [] x h n = absurd h
keeps seen (v ∷ vs) x h n = elim (Bool-cases (is_among v seen)) [
  | inl e ↦ subst (In x) (sym (distinct_seen v seen vs e)) (old e h (λ m. keeps seen vs x m n))
  | inr e ↦ subst (In x) (sym (distinct_new v seen vs e)) (elim (Bool-cases (same x v)) [
    | inl p ↦ inl (same→eq x v p)
    | inr p ↦ inr (new p h (keeps (v ∷ seen) vs x))
  ])
]
  where
    old :
        is_among v seen ≡ true
        → In x (v ∷ vs)
        → (In x vs → In x (distinct_from seen vs))
        → In x (distinct_from seen vs)
    old e (inl p) ih = absurd (n (subst (λ y. In y seen) (sym p) (is_among_sound v seen e)))
    old e (inr m) ih = ih m

    new :
        same x v ≡ false
        → In x (v ∷ vs)
        → (In x vs → (¬ In x (v ∷ seen)) → In x (distinct_from (v ∷ seen) vs))
        → In x (distinct_from (v ∷ seen) vs)
    new p (inl q) ih = absurd (differs p q)
      where
        differs : same x v ≡ false → x ≡ v → ⊥
        differs e q = cc (ap (λ y. same x y) q, same_refl x)
    new p (inr m) ih = ih m (λ s. unseen s)
      where
        unseen : In x (v ∷ seen) → ⊥
        unseen (inl q) = cc (ap (λ y. same x y) q, same_refl x)
        unseen (inr s) = n s

-- `distinct` has the values that it was given, and no others.
pub In-distinct : (vs : List Bytes) (x : Bytes) → In x (distinct vs) ↔ In x vs
unfolding distinct
In-distinct vs x = ((λ h. (kept [] vs x h).0), (λ h. keeps [] vs x h (λ m. m)))

distinct_from-Distinct : (seen vs : List Bytes) → Distinct (distinct_from seen vs)
distinct_from-Distinct seen [] = unfold distinct_from in tt
distinct_from-Distinct seen (v ∷ vs) = elim (Bool-cases (is_among v seen)) [
  | inl e ↦ subst Distinct (sym (distinct_seen v seen vs e)) (distinct_from-Distinct seen vs)
  | inr e ↦
      subst Distinct (sym (distinct_new v seen vs e))
        ((λ h. (kept (v ∷ seen) vs v h).1 (inl refl)), distinct_from-Distinct (v ∷ seen) vs)
]

-- No value of `distinct vs` equals a later one.
pub distinct-Distinct : (vs : List Bytes) → Distinct (distinct vs)
unfolding distinct
distinct-Distinct vs = distinct_from-Distinct [] vs

-- `distinct` has the values that it was given and no others, each of them once.
pub distinct-exact :
    (vs : List Bytes) → Distinct (distinct vs) × ((x : Bytes) → In x (distinct vs) ↔ In x vs)
distinct-exact vs = (distinct-Distinct vs, In-distinct vs)
