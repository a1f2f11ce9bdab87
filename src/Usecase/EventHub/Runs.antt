-- ===== src/Usecase/EventHub/Runs.antt =====
-- Sequences of calls of the hub, in the order in which its lock admits them.
use sekai_master_api.Prelude.{
  ℕ, true, ◌<◌, Option, none, some, List, [], ◌∷◌, ◌≡◌, refl, sym, ◌∙◌, ap, inl, inr, Bool-cases,
  subst, some_inj,
}
use sekai_master_api.Prelude.Members.{In}
use sekai_master_api.Usecase.EventHub.{
  Channels, Hub, new_hub, with_channels, publish, subscribe, is_subscribed, remove_subscriber,
  unsubscribe, close_channel, close_all, close, receive,
}
use sekai_master_api.Usecase.EventHub.Sound.{IsSound, new_hub-IsSound, Goes, publish-Goes}
use sekai_master_api.Usecase.EventHub.Steps.{unsubscribe-Goes, close-Goes}
use sekai_master_api.Usecase.EventHub.Arrivals.{subscribe-Goes, receive-Goes}

pub data Call (E : Type 0) : Type 0 where
  publishes : E → Call E
  subscribes : Call E
  unsubscribes receives : ℕ → Call E
  closes : Call E

module _ {E : Type 0} where
  unfoldable pub perform : Call E → Hub E → Option (Hub E)
  unfolding publish unsubscribe close
  perform (publishes event) hub = publish event hub
  perform subscribes hub = some (subscribe hub)
  perform (unsubscribes i) hub = unsubscribe i hub
  perform (receives i) hub = some (receive i hub)
  perform closes hub = close hub

  unfoldable pub run : List (Call E) → Hub E → Option (Hub E)
  unfolding perform
  run [] hub = some hub
  run (call ∷ calls) hub = elim (perform call hub) [ none ↦ none | some next ↦ run calls next ]

  perform-Goes : (call : Call E) (hub : Hub E) → IsSound hub → Goes (perform call hub)
  unfolding perform
  perform-Goes (publishes event) hub s = publish-Goes event hub s
  perform-Goes subscribes hub s = subscribe-Goes hub s
  perform-Goes (unsubscribes i) hub s = unsubscribe-Goes i hub s
  perform-Goes (receives i) hub s = receive-Goes i hub s
  perform-Goes closes hub s = close-Goes hub s

  -- The hub that a call leaves.
  Reached : Option (Hub E) → Type 0
  Reached result = (hub : Hub E) × (result ≡ some hub) × IsSound hub

  Goes-Reached : (result : Option (Hub E)) → Goes result → Reached result
  unfolding Goes Reached
  Goes-Reached none g = absurd g
  Goes-Reached (some hub) g = (hub, refl, g)

  run-step :
      (call : Call E) (calls : List (Call E)) (hub next : Hub E)
      → perform call hub ≡ some next
      → run (call ∷ calls) hub ≡ run calls next
  unfolding run
  run-step call calls hub next e = rw (e, run) refl

  run_from : (calls : List (Call E)) (hub : Hub E) → IsSound hub → Reached (run calls hub)
  unfolding Reached run
  run_from [] hub s = (hub, refl, s)
  run_from (call ∷ calls) hub s =
      let next : Reached (perform call hub) =
        Goes-Reached (perform call hub) (perform-Goes call hub s) in
      let rest : Reached (run calls next.0) = run_from calls next.0 next.2 in
      (rest.0, run-step call calls hub next.0 next.1 ∙ rest.1, rest.2)

  -- No sequence of calls of the hub panics, by a send on a closed channel or by closing one twice,
  -- and behind each the open channels are exactly the subscribers, each of them once, no channel
  -- holds more than eight events, and a closed hub has no subscriber.
  pub run-IsSound :
      (calls : List (Call E)) → (hub : Hub E) × (run calls new_hub ≡ some hub) × IsSound hub
  unfolding Reached
  run-IsSound calls = run_from calls new_hub new_hub-IsSound

  with_channels-closed :
      (hub : Hub E) (channels : Option (Channels E)) (after : Hub E)
      → with_channels hub channels ≡ some after
      → after.closed ≡ hub.closed
  with_channels-closed hub none after e = absurd cc
  with_channels-closed hub (some channels) after e =
      ap (λ (h : Hub E). h.closed) (sym (some_inj _ _ e))

  close-closed : (hub after : Hub E) → IsSound hub → close hub ≡ some after → after.closed ≡ true
  unfolding close
  close-closed hub after s e = elim (Bool-cases hub.close_done) [
    | inl f ↦
        let same_hub : close hub ≡ some hub = simp f in
        ap (λ (h : Hub E). h.closed) (sym (some_inj hub after (sym same_hub ∙ e))) ∙ s.shut ∙ f
    | inr f ↦
        let closing : close hub
            ≡ with_channels (record hub { subscribers = []; closed = true; close_done = true })
                (close_all hub.subscribers hub.channels) =
          simp f in
        with_channels-closed (record hub { subscribers = []; closed = true; close_done = true })
          (close_all hub.subscribers hub.channels) after (sym closing ∙ e)
  ]

  perform-closed :
      (call : Call E) (hub after : Hub E)
      → IsSound hub
      → hub.closed ≡ true
      → perform call hub ≡ some after
      → after.closed ≡ true
  unfolding perform publish subscribe unsubscribe close receive
  perform-closed (publishes event) hub after s c e =
      let same_hub : publish event hub ≡ some hub = simp c in
      ap (λ (h : Hub E). h.closed) (sym (some_inj _ _ (sym same_hub ∙ e))) ∙ c
  perform-closed subscribes hub after s c e =
      let stays : (subscribe hub).closed ≡ true = rw c refl in
      ap (λ (h : Hub E). h.closed) (sym (some_inj _ _ e)) ∙ stays
  perform-closed (unsubscribes i) hub after s c e =
      elim (Bool-cases (is_subscribed i hub.subscribers)) [
        | inl f ↦
            with_channels-closed (record hub { subscribers = remove_subscriber i hub.subscribers })
              (close_channel i hub.channels) after (sym (rw f refl) ∙ e)
            ∙ c
        | inr f ↦ ap (λ (h : Hub E). h.closed) (sym (some_inj hub after (sym (rw f refl) ∙ e))) ∙ c
      ]
  perform-closed (receives i) hub after s c e =
      ap (λ (h : Hub E). h.closed) (sym (some_inj _ _ e)) ∙ c
  perform-closed closes hub after s c e = close-closed hub after s e

  run-closed :
      (calls : List (Call E)) (hub after : Hub E)
      → IsSound hub
      → hub.closed ≡ true
      → run calls hub ≡ some after
      → (after.closed ≡ true) × IsSound after
  unfolding run Reached
  run-closed [] hub after s c e =
      (ap (λ (h : Hub E). h.closed) (sym (some_inj _ _ e)) ∙ c, subst IsSound (some_inj _ _ e) s)
  run-closed (call ∷ calls) hub after s c e =
      let next : Reached (perform call hub) =
        Goes-Reached (perform call hub) (perform-Goes call hub s) in
      run-closed calls next.0 after next.2 (perform-closed call hub next.0 s c next.1)
        (sym (run-step call calls hub next.0 next.1) ∙ e)

  -- Once `Close` was called, every channel that the hub ever returned is closed, those returned
  -- later too, whatever was called before and since.
  pub closed_forever :
      (before since : List (Call E)) (hub closing after : Hub E)
      → run before new_hub ≡ some hub
      → perform closes hub ≡ some closing
      → run since closing ≡ some after
      → (i : ℕ) → i < after.made
      → (after.channels i).is_closed ≡ true
  unfolding Reached close perform
  closed_forever before since hub closing after e c r i h =
      let sound : IsSound hub =
        subst IsSound (some_inj _ _ (sym (run-IsSound before).1 ∙ e)) (run-IsSound before).2 in
      let closed : Reached (perform closes hub) =
        Goes-Reached (perform closes hub) (perform-Goes closes hub sound) in
      let same_hub : closed.0 ≡ closing = some_inj _ _ (sym closed.1 ∙ c) in
      let end : (after.closed ≡ true) × IsSound after =
        run-closed since closing after (subst IsSound same_hub closed.2)
          (close-closed hub closing sound c) r in
      elim (Bool-cases (after.channels i).is_closed) [
        | inl f ↦ f
        | inr f ↦ absurd (subst (In i) (end.1.left end.0) (end.1.listed i h f))
      ]
