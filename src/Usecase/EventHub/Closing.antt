-- ===== src/Usecase/EventHub/Closing.antt =====
-- What removing a subscriber and closing channels leave.
use sekai_master_api.Prelude.{
  ℕ, true, false, Option, none, some, List, [], ◌∷◌, ◌==◌, ◌≡◌, refl, sym, ◌∙◌, ap, inl, inr, arith,
  Bool-cases, false≢true, subst,
}
use sekai_master_api.Prelude.Members.{In}
use sekai_master_api.Usecase.EventHub.{
  Channel, Channels, put_channel, close_channel, is_subscribed, remove_subscriber, close_all,
}
use sekai_master_api.Usecase.EventHub.Sound.{NoRepeats, AllOpen, AllShort, put_short}

pub is_subscribed-In : (i : ℕ) (is : List ℕ) → is_subscribed i is ≡ true → In i is
unfolding is_subscribed
is_subscribed-In i [] e = absurd (false≢true e)
is_subscribed-In i (j ∷ is) e = elim (Bool-cases (j == i)) [
  | inl f ↦ inl (ground arith)
  | inr f ↦ inr (is_subscribed-In i is (sym (rw f refl) ∙ e))
]

pub remove_subscriber-In :
    (i j : ℕ) (is : List ℕ) → In j (remove_subscriber i is) → In j is × (j ≡ i → ⊥)
unfolding remove_subscriber
remove_subscriber-In i j [] m = absurd m
remove_subscriber-In i j (k ∷ is) m = elim (Bool-cases (k == i)) [
  | inl e ↦
      let rest : In j is × (j ≡ i → ⊥) = remove_subscriber-In i j is (subst (In j) (rw e refl) m) in
      (inr rest.0, rest.1)
  | inr e ↦
      kept e (remove_subscriber-In i j is)
        (subst (In j) {y = k ∷ remove_subscriber i is} (rw e refl) m)
]
  where
    kept :
        k == i ≡ false
        → (In j (remove_subscriber i is) → In j is × (j ≡ i → ⊥))
        → In j (k ∷ remove_subscriber i is)
        → In j (k ∷ is) × (j ≡ i → ⊥)
    kept e next (inl f) = (inl f, (λ g. ground (arith, e, f, g)))
    kept e next (inr n) = let rest : In j is × (j ≡ i → ⊥) = next n in (inr rest.0, rest.1)

pub In-remove_subscriber :
    (i j : ℕ) (is : List ℕ) → In j is → (j ≡ i → ⊥) → In j (remove_subscriber i is)
unfolding remove_subscriber
In-remove_subscriber i j [] m d = absurd m
In-remove_subscriber i j (k ∷ is) (inl e) d =
    let other : k == i ≡ false = ground (arith, e, d) in rw other (inl e)
In-remove_subscriber i j (k ∷ is) (inr m) d = elim (Bool-cases (k == i)) [
  | inl e ↦ rw e (In-remove_subscriber i j is m d)
  | inr e ↦ rw e (inr (In-remove_subscriber i j is m d))
]

pub remove_subscriber-NoRepeats :
    (i : ℕ) (is : List ℕ) → NoRepeats is → NoRepeats (remove_subscriber i is)
unfolding remove_subscriber NoRepeats
remove_subscriber-NoRepeats i [] h = tt
remove_subscriber-NoRepeats i (k ∷ is) h = elim (Bool-cases (k == i)) [
  | inl e ↦ rw e (remove_subscriber-NoRepeats i is h.1)
  | inr e ↦
      rw e ((λ m. h.0 (remove_subscriber-In i k is m).0), remove_subscriber-NoRepeats i is h.1)
]

module _ {E : Type 0} where
  abbrev pub shut : Channel E → Channel E
  shut channel = record channel { is_closed = true }

  pub put_shut :
      (i : ℕ) (channels : Channels E)
      → (put_channel i (shut (channels i)) channels i).is_closed ≡ true
  put_shut i channels = let here : i == i ≡ true = ground arith in rw here refl

  pub put_shut-other :
      (i j : ℕ) (channels : Channels E)
      → (j ≡ i → ⊥)
      → (put_channel i (shut (channels i)) channels j).is_closed ≡ (channels j).is_closed
  put_shut-other i j channels d = let other : j == i ≡ false = ground (arith, d) in rw other refl

  pub put_shut-stays :
      (i j : ℕ) (channels : Channels E)
      → (channels j).is_closed ≡ true
      → (put_channel i (shut (channels i)) channels j).is_closed ≡ true
  put_shut-stays i j channels h = elim (Bool-cases (j == i)) [ inl e ↦ rw e refl | inr e ↦ rw e h ]

  pub close_channel-open :
      (i : ℕ) (channels : Channels E)
      → (channels i).is_closed ≡ false
      → close_channel i channels ≡ some (put_channel i (shut (channels i)) channels)
  unfolding close_channel
  close_channel-open i channels h = rw h refl

  unfoldable pub Shut : List ℕ → Channels E → Option (Channels E) → Type 0
  Shut is before none = ⊥
  Shut is before (some after) =
      ((j : ℕ) → In j is → (after j).is_closed ≡ true)
      × ((j : ℕ) → (before j).is_closed ≡ true → (after j).is_closed ≡ true)
      × (AllShort before → AllShort after)

  Shut-then :
      (i : ℕ) (is : List ℕ) (channels : Channels E) (after : Option (Channels E))
      → Shut is (put_channel i (shut (channels i)) channels) after
      → Shut (i ∷ is) channels after
  unfolding Shut
  Shut-then i is channels none h = h
  Shut-then i is channels (some after) h = (
    listed,
    (λ j e. h.1 j (put_shut-stays i j channels e)),
    (λ s. h.2 (put_short i (shut (channels i)) channels (s i) s)),
  )
    where
      listed : (j : ℕ) → In j (i ∷ is) → (after j).is_closed ≡ true
      listed j (inl e) = h.1 j (
          ap (λ k. (put_channel i (shut (channels i)) channels k).is_closed) e
          ∙ put_shut i channels)
      listed j (inr m) = h.0 j m

  pub close_all-Shut :
      (is : List ℕ) (channels : Channels E)
      → NoRepeats is
      → AllOpen is channels
      → Shut is channels (close_all is channels)
  unfolding close_all Shut NoRepeats
  close_all-Shut [] channels d h = ((λ j m. absurd m), (λ j e. e), (λ s. s))
  close_all-Shut (i ∷ is) channels d h =
      let step : close_all (i ∷ is) channels
          ≡ close_all is (put_channel i (shut (channels i)) channels) =
        rw (close_channel-open i channels (h i (inl refl)), close_all) refl in
      subst (Shut (i ∷ is) channels) (sym step) (
        Shut-then i is channels _ (
          close_all-Shut is (put_channel i (shut (channels i)) channels) d.1 (λ j m.
            put_shut-other i j channels (λ e. d.0 (subst (λ k. In k is) e m)) ∙ h j (inr m))))
