-- ===== src/Usecase/EventHub/Steps.antt =====
-- Unsubscribing and closing keep the hub sound, and none panics.
use sekai_master_api.Prelude.{
  ℕ, true, false, Option, none, some, [], ◌≡◌, refl, sym, ◌∙◌, ap, inl, inr, Bool-cases, false≢true,
  subst,
}
use sekai_master_api.Prelude.Members.{In}
use sekai_master_api.Usecase.EventHub.{
  Channels, Hub, put_channel, with_channels, is_subscribed, remove_subscriber, unsubscribe, close,
}
use sekai_master_api.Usecase.EventHub.Sound.{NoRepeats, IsSound, put_short, Goes, either}
use sekai_master_api.Usecase.EventHub.Closing.{
  is_subscribed-In, remove_subscriber-In, In-remove_subscriber, remove_subscriber-NoRepeats, shut,
  put_shut, put_shut-other, close_channel-open, Shut, close_all-Shut,
}

module _ {E : Type 0} where
  pub no_subscriber :
      (hub : Hub E) → IsSound hub → hub.closed ≡ true → (i : ℕ) → In i hub.subscribers → ⊥
  no_subscriber hub s e i m = subst (In i) (s.left e) m

  unsubscribed :
      (i : ℕ) (hub : Hub E)
      → IsSound hub
      → In i hub.subscribers
      → IsSound (record hub {
        subscribers = remove_subscriber i hub.subscribers;
        channels = put_channel i (shut (hub.channels i)) hub.channels;
      })
  unsubscribed i hub s m = record {
    distinct = remove_subscriber-NoRepeats i hub.subscribers s.distinct;
    made_before = λ j n. s.made_before j (remove_subscriber-In i j hub.subscribers n).0;
    all_open = λ j n.
        let kept : In j hub.subscribers × (j ≡ i → ⊥) =
          remove_subscriber-In i j hub.subscribers n in
        put_shut-other i j hub.channels kept.1 ∙ s.all_open j kept.0;
    listed = λ j h e.
        In-remove_subscriber i j hub.subscribers (s.listed j h (open_before j e)) (other j e);
    short = put_short i (shut (hub.channels i)) hub.channels (s.short i) s.short;
    shut = s.shut;
    left = λ e. absurd (no_subscriber hub s e i m);
  }
    where
      other :
          (j : ℕ)
          → (put_channel i (shut (hub.channels i)) hub.channels j).is_closed ≡ false
          → j ≡ i
          → ⊥
      other j e f = false≢true (
          sym e
          ∙ ap (λ k. (put_channel i (shut (hub.channels i)) hub.channels k).is_closed) f
          ∙ put_shut i hub.channels)

      open_before :
          (j : ℕ)
          → (put_channel i (shut (hub.channels i)) hub.channels j).is_closed ≡ false
          → (hub.channels j).is_closed ≡ false
      open_before j e = sym (put_shut-other i j hub.channels (other j e)) ∙ e

  pub unsubscribe-Goes : (i : ℕ) (hub : Hub E) → IsSound hub → Goes (unsubscribe i hub)
  unfolding unsubscribe Goes
  unsubscribe-Goes i hub s =
      either _ _ (is_subscribed i hub.subscribers)
        (λ e.
          let m : In i hub.subscribers = is_subscribed-In i hub.subscribers e in
          subst
            (λ c.
              Goes (
                with_channels (record hub { subscribers = remove_subscriber i hub.subscribers }) c))
            (sym (close_channel-open i hub.channels (s.all_open i m))) (unsubscribed i hub s m))
        (λ e. s)

  closed_hub :
      (hub : Hub E) (after : Option (Channels E))
      → IsSound hub
      → Shut hub.subscribers hub.channels after
      → Goes
          (with_channels (record hub { subscribers = []; closed = true; close_done = true }) after)
  unfolding Shut Goes NoRepeats
  closed_hub hub none s h = h
  closed_hub hub (some after) s h = record {
    distinct = tt;
    made_before = λ j m. absurd m;
    all_open = λ j m. absurd m;
    listed = λ j k e. elim (Bool-cases (hub.channels j).is_closed) [
      | inl c ↦ absurd (false≢true (sym e ∙ h.1 j c))
      | inr o ↦ absurd (false≢true (sym e ∙ h.0 j (s.listed j k o)))
    ];
    short = h.2 s.short;
    shut = refl;
    left = λ e. refl;
  }

  pub close-Goes : (hub : Hub E) → IsSound hub → Goes (close hub)
  unfolding close Goes
  close-Goes hub s =
      either _ _ hub.close_done (λ e. s)
        (λ e.
          closed_hub hub _ s (close_all-Shut hub.subscribers hub.channels s.distinct s.all_open))
