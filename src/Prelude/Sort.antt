-- ===== src/Prelude/Sort.antt =====
-- A stable sort, for `sort.Slice`, `sort.SliceStable` and `sort.Strings`.
use mathlib.Core.Path.{◌≡◌, refl}
use mathlib.Core.Logic.{◌↔◌, inl, inr}
use mathlib.Core.Bool.{Bool, true, false}
use mathlib.Core.List.{List, [], ◌∷◌, Perm}
use mathlib.Core.List.Perm
use native.Mathlib.Omega.{arith}
use sekai_master_api.Prelude.Tests.{if◌then◌else◌, Bool-cases}
use sekai_master_api.Prelude.Text.{Bytes, less}
use sekai_master_api.Prelude.Members.{In}

module _ {A : Type 0} (before : A → A → Bool) where
  insert : A → List A → List A
  insert x [] = x ∷ []
  insert x (y ∷ ys) = let rest = insert x ys in if before y x then y ∷ rest else x ∷ y ∷ ys

  unfoldable pub sort : List A → List A
  unfolding insert
  sort [] = []
  sort (x ∷ xs) = insert x (sort xs)

  insert-perm : (x : A) (ys : List A) → Perm (insert x ys) (x ∷ ys)
  unfolding insert
  insert-perm x [] = Perm.rfl
  insert-perm x (y ∷ ys) = elim (Bool-cases (before y x)) [
    | inl e ↦ rw e (Perm.trans (Perm.cons y (insert-perm x ys)) (Perm.swap x y ys))
    | inr e ↦ rw e Perm.rfl
  ]

  -- The result has the items of the argument, each as often.
  pub sort-perm : (xs : List A) → Perm (sort xs) xs
  unfolding sort
  sort-perm [] = Perm.rfl
  sort-perm (x ∷ xs) = Perm.trans (insert-perm x (sort xs)) (Perm.cons x (sort-perm xs))

  insert-In : (x y : A) (ys : List A) → In y (insert x ys) ↔ In y (x ∷ ys)
  unfolding insert
  insert-In x y [] = ((λ h. h), (λ h. h))
  insert-In x y (z ∷ ys) = elim (Bool-cases (before z x)) [
    | inl e ↦ rw e (
      (λ h. elim h [
        | inl p ↦ inr (inl p)
        | inr m ↦ elim ((insert-In x y ys).0 m) [ inl p ↦ inl p | inr k ↦ inr (inr k) ]
      ]),
      (λ h. elim h [
        | inl p ↦ inr ((insert-In x y ys).1 (inl p))
        | inr m ↦ elim m [ inl p ↦ inl p | inr k ↦ inr ((insert-In x y ys).1 (inr k)) ]
      ]),
    )
    | inr e ↦ rw e ((λ h. h), (λ h. h))
  ]

  pub sort-In : (y : A) (xs : List A) → In y (sort xs) ↔ In y xs
  unfolding sort
  sort-In y [] = ((λ h. h), (λ h. h))
  sort-In y (x ∷ xs) = (
    (λ h. elim ((insert-In x y (sort xs)).0 h) [
      | inl p ↦ inl p
      | inr m ↦ inr ((sort-In y xs).0 m)
    ]),
    (λ h. elim h [
      | inl p ↦ (insert-In x y (sort xs)).1 (inl p)
      | inr m ↦ (insert-In x y (sort xs)).1 (inr ((sort-In y xs).1 m))
    ]),
  )

  -- No item is before the one in front of it.
  abbrev pub IsOrdered : List A → Type 0
  IsOrdered [] = Unit
  IsOrdered (x ∷ []) = Unit
  IsOrdered (x ∷ y ∷ ys) = (before y x ≡ false) × IsOrdered (y ∷ ys)

  module _ (asym : (x y : A) → before x y ≡ true → before y x ≡ false) where
    tail-IsOrdered : (x : A) (ys : List A) → IsOrdered (x ∷ ys) → IsOrdered ys
    tail-IsOrdered x [] h = tt
    tail-IsOrdered x (y ∷ ys) h = h.1

    cons-IsOrdered :
        (y x : A) (ys : List A)
        → IsOrdered (y ∷ ys)
        → before y x ≡ true
        → IsOrdered (insert x ys)
        → IsOrdered (y ∷ insert x ys)
    unfolding insert
    cons-IsOrdered y x [] h e k = (asym y x e, tt)
    cons-IsOrdered y x (z ∷ zs) h e k = elim (Bool-cases (before z x)) [
      | inl f ↦ rw f (h.0, rw f at k)
      | inr f ↦ rw f (asym y x e, rw f at k)
    ]

    insert-IsOrdered : (x : A) (ys : List A) → IsOrdered ys → IsOrdered (insert x ys)
    unfolding insert
    insert-IsOrdered x [] h = tt
    insert-IsOrdered x (y ∷ ys) h = elim (Bool-cases (before y x)) [
      | inl e ↦ rw e (cons-IsOrdered y x ys h e (insert-IsOrdered x ys (tail-IsOrdered y ys h)))
      | inr e ↦ rw e (e, h)
    ]

    pub sort-IsOrdered : (xs : List A) → IsOrdered (sort xs)
    unfolding sort
    sort-IsOrdered [] = tt
    sort-IsOrdered (x ∷ xs) = insert-IsOrdered x (sort xs) (sort-IsOrdered xs)

pub less_asym : (s t : Bytes) → less s t ≡ true → less t s ≡ false
unfolding less
less_asym [] [] h = refl
less_asym [] (b ∷ t) h = refl
less_asym (a ∷ s) [] h = cc
less_asym (a ∷ s) (b ∷ t) h = ground (arith, less_asym s t)
