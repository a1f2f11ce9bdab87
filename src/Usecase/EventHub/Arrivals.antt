-- ===== src/Usecase/EventHub/Arrivals.antt =====
-- Subscribing and receiving keep the hub sound.
use sekai_master_api.Prelude.{
  ℕ, suc, Bool, true, false, ◌≤◌, ◌<◌, some, List, [], ◌∷◌, length, ◌==◌, ◌≡◌, ◌⊎◌, refl, sym, ◌∙◌,
  ap, inl, inr, arith, Bool-cases, false≢true, subst, le_trans,
}
use sekai_master_api.Prelude.Members.{In}
use sekai_master_api.Usecase.EventHub.{
  Channel, Hub, put_channel, empty_channel, subscribe, rest_of, receive,
}
use sekai_master_api.Usecase.EventHub.Sound.{NoRepeats, IsSound, put_short, put_closed, Goes}
use sekai_master_api.Usecase.EventHub.Steps.{no_subscriber}

or_new : (i n : ℕ) → i < suc n → (i < n) ⊎ (i ≡ n)
or_new i n h = omega arith

module _ {E : Type 0} where
  put_new :
      (b : Bool) (hub : Hub E) (j : ℕ)
      → j < hub.made
      → put_channel hub.made (empty_channel b) hub.channels j ≡ hub.channels j
  put_new b hub j h = let other : j == hub.made ≡ false = ground arith in rw other refl

  put_made :
      (b : Bool) (hub : Hub E)
      → put_channel hub.made (empty_channel b) hub.channels hub.made ≡ empty_channel b
  put_made b hub = let here : hub.made == hub.made ≡ true = ground arith in rw here refl

  made_closed :
      (hub : Hub E)
      → IsSound hub
      → hub.closed ≡ true
      → IsSound (record hub {
        channels = put_channel hub.made (empty_channel true) hub.channels;
        made = suc hub.made;
      })
  made_closed hub s c = record {
    distinct = s.distinct;
    made_before = λ j m. absurd (no_subscriber hub s c j m);
    all_open = λ j m. absurd (no_subscriber hub s c j m);
    listed = λ j h e. elim (or_new j hub.made h) [
      | inl k ↦ s.listed j k (sym (ap (λ (x : Channel E). x.is_closed) (put_new true hub j k)) ∙ e)
      | inr f ↦ absurd (
          false≢true (
            sym e
            ∙ ap (λ k. (put_channel hub.made (empty_channel true) hub.channels k).is_closed) f
            ∙ ap (λ (x : Channel E). x.is_closed) (put_made true hub)))
    ];
    short = put_short hub.made (empty_channel true) hub.channels (omega arith) s.short;
    shut = s.shut;
    left = s.left;
  }

  made_open :
      (hub : Hub E)
      → IsSound hub
      → hub.closed ≡ false
      → IsSound (record hub {
        subscribers = hub.made ∷ hub.subscribers;
        channels = put_channel hub.made (empty_channel false) hub.channels;
        made = suc hub.made;
      })
  unfolding NoRepeats
  made_open hub s c = record {
    distinct = (
      (λ m. let before : hub.made < hub.made = s.made_before hub.made m in omega (arith, before)),
      s.distinct,
    );
    made_before = earlier;
    all_open = opened;
    listed = λ j h e. elim (or_new j hub.made h) [
      | inl k ↦
          inr (s.listed j k (sym (ap (λ (x : Channel E). x.is_closed) (put_new false hub j k)) ∙ e))
      | inr f ↦ inl f
    ];
    short = put_short hub.made (empty_channel false) hub.channels (omega arith) s.short;
    shut = s.shut;
    left = λ e. absurd (false≢true (sym c ∙ e));
  }
    where
      earlier : (j : ℕ) → In j (hub.made ∷ hub.subscribers) → j < suc hub.made
      earlier j (inl e) = omega (arith, e)
      earlier j (inr m) = let before : j < hub.made = s.made_before j m in omega (arith, before)

      opened :
          (j : ℕ)
          → In j (hub.made ∷ hub.subscribers)
          → (put_channel hub.made (empty_channel false) hub.channels j).is_closed ≡ false
      opened j (inl e) =
          ap (λ k. (put_channel hub.made (empty_channel false) hub.channels k).is_closed) e
          ∙ ap (λ (x : Channel E). x.is_closed) (put_made false hub)
      opened j (inr m) =
          ap (λ (x : Channel E). x.is_closed) (put_new false hub j (s.made_before j m))
          ∙ s.all_open j m

  pub subscribe-Goes : (hub : Hub E) → IsSound hub → Goes (some (subscribe hub))
  unfolding subscribe Goes
  subscribe-Goes hub s = elim (Bool-cases hub.closed) [
    | inl c ↦ subst IsSound {y = subscribe hub} (sym (simp c)) (made_closed hub s c)
    | inr c ↦ subst IsSound {y = subscribe hub} (sym (simp c)) (made_open hub s c)
  ]

  rest_of-length : (events : List E) → length (rest_of events) ≤ length events
  unfolding rest_of
  rest_of-length [] = omega arith
  rest_of-length (event ∷ events) = omega arith

  pub receive-Goes : (i : ℕ) (hub : Hub E) → IsSound hub → Goes (some (receive i hub))
  unfolding receive Goes
  receive-Goes i hub s =
      let taken : Channel E = record (hub.channels i) { queue = rest_of (hub.channels i).queue } in
      let same_open : (j : ℕ)
          → (put_channel i taken hub.channels j).is_closed ≡ (hub.channels j).is_closed =
        λ j. put_closed i j taken hub.channels refl in
      record {
        distinct = s.distinct;
        made_before = s.made_before;
        all_open = λ j m. same_open j ∙ s.all_open j m;
        listed = λ j h e. s.listed j h (sym (same_open j) ∙ e);
        short =
            put_short i taken hub.channels
              (le_trans (rest_of-length (hub.channels i).queue) (s.short i)) s.short;
        shut = s.shut;
        left = s.left;
      }
