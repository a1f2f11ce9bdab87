-- ===== src/Usecase/EventHub/Examples.antt =====
-- A hub with two subscribers, closed after an update.
use sekai_master_api.Prelude.{ℕ, true, Option, none, some, List, [], ◌∷◌, ◌≡◌, refl, arith}
use sekai_master_api.Usecase.EventHub.{
  Hub, new_hub, queued, try_send, send_all, publish, subscribe, is_subscribed, remove_subscriber,
  close_channel, unsubscribe, close_all, close, receive,
}
use sekai_master_api.Usecase.EventHub.Sound.{IsSound}
use sekai_master_api.Usecase.EventHub.Runs.{
  Call, publishes, subscribes, unsubscribes, closes, perform, run, run-IsSound, closed_forever,
}

abbrev calls : List (Call ℕ)
calls = subscribes ∷ subscribes ∷ publishes 5 ∷ unsubscribes 0 ∷ []

run-IsSound_example : (hub : Hub ℕ) × (run calls new_hub ≡ some hub) × IsSound hub
run-IsSound_example = run-IsSound calls

-- The hub behind a run, and an empty one for a panic.
abbrev hub_of : Option (Hub ℕ) → Hub ℕ
hub_of none = new_hub
hub_of (some hub) = hub

abbrev closing : Hub ℕ
closing = hub_of (perform closes (hub_of (run calls new_hub)))

abbrev behind : Hub ℕ
behind = hub_of (run (subscribes ∷ []) closing)

closed_forever_example : (behind.channels 1).is_closed ≡ true
unfolding perform run publish subscribe send_all try_send queued unsubscribe is_subscribed
    remove_subscriber close_channel close_all close receive
closed_forever_example =
    closed_forever calls (subscribes ∷ []) (hub_of (run calls new_hub)) closing behind refl refl
      refl 1 (omega arith)
