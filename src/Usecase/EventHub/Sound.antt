-- ===== src/Usecase/EventHub/Sound.antt =====
-- The subscribers of the hub are its open channels.
use sekai_master_api.Prelude.{
  ℕ, Bool, true, false, ◌≤◌, ◌<◌, Option, none, some, List, [], ◌∷◌, length, length-append, ltb,
  ◌==◌, if◌then◌else◌, ◌≡◌, refl, sym, ◌∙◌, ap, inl, inr, arith, Bool-cases, subst,
}
use sekai_master_api.Prelude.Members.{In}
use sekai_master_api.Usecase.EventHub.{
  Channel, Channels, Hub, put_channel, new_hub, queued, try_send, send_all, with_channels, publish,
}

unfoldable pub NoRepeats : List ℕ → Type 0
NoRepeats [] = Unit
NoRepeats (i ∷ is) = (In i is → ⊥) × NoRepeats is

module _ {E : Type 0} where
  abbrev pub AllOpen : List ℕ → Channels E → Type 0
  AllOpen is channels = (i : ℕ) → In i is → (channels i).is_closed ≡ false

  abbrev pub AllShort : Channels E → Type 0
  AllShort channels = (i : ℕ) → length (channels i).queue ≤ 8

  -- The subscribers are distinct, and they are the open ones among the channels made; none is left
  -- behind `Close`; no channel holds more events than its capacity.
  pub record IsSound (hub : Hub E) : Type 0 where
    pub distinct : NoRepeats hub.subscribers
    pub made_before : (i : ℕ) → In i hub.subscribers → i < hub.made
    pub all_open : AllOpen hub.subscribers hub.channels
    pub listed : (i : ℕ) → i < hub.made → (hub.channels i).is_closed ≡ false → In i hub.subscribers
    pub short : AllShort hub.channels
    pub shut : hub.closed ≡ hub.close_done
    pub left : hub.closed ≡ true → hub.subscribers ≡ []

  pub new_hub-IsSound : IsSound new_hub
  unfolding NoRepeats
  new_hub-IsSound = record {
    distinct = tt;
    made_before = λ i m. absurd m;
    all_open = λ i m. absurd m;
    listed = λ i h e. absurd (omega (arith, h));
    short = λ i. omega arith;
    shut = refl;
    left = λ e. refl;
  }

  -- What a send to open channels leaves: the same channels open, and their queues short.
  queued-short :
      (event : E) (channel : Channel E)
      → length channel.queue ≤ 8
      → length (queued event channel).queue ≤ 8
  unfolding queued
  queued-short event channel h = elim (Bool-cases (ltb (length channel.queue) 8)) [
    | inl e ↦ rw e (ground (arith, length-append channel.queue (event ∷ [])))
    | inr e ↦ rw e h
  ]

  queued-closed :
      (event : E) (channel : Channel E) → (queued event channel).is_closed ≡ channel.is_closed
  unfolding queued
  queued-closed event channel = elim (Bool-cases (ltb (length channel.queue) 8)) [
    | inl e ↦ rw e refl
    | inr e ↦ rw e refl
  ]

  Sent : Channels E → Option (Channels E) → Type 0
  Sent before none = ⊥
  Sent before (some after) =
      ((j : ℕ) → (after j).is_closed ≡ (before j).is_closed) × (AllShort before → AllShort after)

  pub put_closed :
      (i j : ℕ) (channel : Channel E) (channels : Channels E)
      → channel.is_closed ≡ (channels i).is_closed
      → (put_channel i channel channels j).is_closed ≡ (channels j).is_closed
  put_closed i j channel channels h = elim (Bool-cases (j == i)) [
    | inl e ↦
        let here : j ≡ i = ground arith in rw e (h ∙ ap (λ k. (channels k).is_closed) (sym here))
    | inr e ↦ rw e refl
  ]

  pub put_short :
      (i : ℕ) (channel : Channel E) (channels : Channels E)
      → length channel.queue ≤ 8
      → AllShort channels
      → AllShort (put_channel i channel channels)
  put_short i channel channels h all j = elim (Bool-cases (j == i)) [
    | inl e ↦ rw e h
    | inr e ↦ rw e (all j)
  ]

  put_queued :
      (event : E) (i : ℕ) (channels : Channels E)
      → Sent channels (some (put_channel i (queued event (channels i)) channels))
  unfolding Sent
  put_queued event i channels = (
    (λ j. put_closed i j (queued event (channels i)) channels (queued-closed event (channels i))),
    (λ h.
        put_short i (queued event (channels i)) channels (queued-short event (channels i) (h i)) h),
  )

  Sent-then :
      (before middle : Channels E) (after : Option (Channels E))
      → Sent before (some middle)
      → Sent middle after
      → Sent before after
  unfolding Sent
  Sent-then before middle none first next = next
  Sent-then before middle (some after) first next =
      ((λ j. next.0 j ∙ first.0 j), (λ s. next.1 (first.1 s)))

  try_send-open :
      (event : E) (i : ℕ) (channels : Channels E)
      → (channels i).is_closed ≡ false
      → try_send event i channels ≡ some (put_channel i (queued event (channels i)) channels)
  unfolding try_send
  try_send-open event i channels h = rw h refl

  send_all-Sent :
      (event : E) (is : List ℕ) (channels : Channels E)
      → AllOpen is channels
      → Sent channels (send_all event is channels)
  unfolding send_all Sent
  send_all-Sent event [] channels h = ((λ j. refl), (λ s. s))
  send_all-Sent event (i ∷ is) channels h =
      let sent : Channels E = put_channel i (queued event (channels i)) channels in
      let first : Sent channels (some sent) = put_queued event i channels in
      let step : send_all event (i ∷ is) channels ≡ send_all event is sent =
        rw (try_send-open event i channels (h i (inl refl)), send_all) refl in
      subst (Sent channels) (sym step) (
        Sent-then channels sent (send_all event is sent) first
          (send_all-Sent event is sent (λ j m. first.0 j ∙ h j (inr m))))

  -- A step of the hub that does not panic and keeps it sound.
  unfoldable pub Goes : Option (Hub E) → Type 0
  Goes none = ⊥
  Goes (some hub) = IsSound hub

  Sent-Goes :
      (hub : Hub E) (after : Option (Channels E))
      → IsSound hub
      → Sent hub.channels after
      → Goes (with_channels hub after)
  unfolding Goes Sent
  Sent-Goes hub none s h = h
  Sent-Goes hub (some channels) s h = record {
    distinct = s.distinct;
    made_before = s.made_before;
    all_open = λ i m. h.0 i ∙ s.all_open i m;
    listed = λ i m e. s.listed i m (sym (h.0 i) ∙ e);
    short = h.1 s.short;
    shut = s.shut;
    left = s.left;
  }

  pub either :
      (one other : Option (Hub E)) (b : Bool)
      → (b ≡ true → Goes one)
      → (b ≡ false → Goes other)
      → Goes (if b then one else other)
  either one other true p q = p refl
  either one other false p q = q refl

  pub publish-Goes : (event : E) (hub : Hub E) → IsSound hub → Goes (publish event hub)
  unfolding publish Goes
  publish-Goes event hub s =
      either _ _ hub.closed (λ e. s)
        (λ e. Sent-Goes hub _ s (send_all-Sent event hub.subscribers hub.channels s.all_open))
