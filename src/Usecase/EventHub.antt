-- ===== src/Usecase/EventHub.antt =====
-- internal/usecase/master_data_event_hub.go: the hub that fans the updates out to its subscribers.
-- Channels are numbered in the order of their making.
pub mod Sound
pub mod Closing
pub mod Steps
pub mod Arrivals
pub mod Runs
mod Examples
use sekai_master_api.Prelude.{
  ℕ, suc, Bool, true, false, not, ◌||◌, Option, none, some, List, [], ◌∷◌, ◌++◌, length, ltb, ◌==◌,
  if◌then◌else◌,
}

pub record Channel (E : Type 0) : Type 0 where
  pub queue : List E
  pub is_closed : Bool

abbrev pub Channels : Type 0 → Type 0
Channels E = ℕ → Channel E

-- `MasterDataEventHub` with the channels it has made, of which `made` is the number.
pub record Hub (E : Type 0) : Type 0 where
  pub subscribers : List ℕ
  pub closed : Bool
  pub close_done : Bool
  pub channels : Channels E
  pub made : ℕ

unfoldable pub is_subscribed : ℕ → List ℕ → Bool
is_subscribed i [] = false
is_subscribed i (j ∷ subscribers) = j == i || is_subscribed i subscribers

unfoldable pub remove_subscriber : ℕ → List ℕ → List ℕ
remove_subscriber i [] = []
remove_subscriber i (j ∷ subscribers) =
    let rest = remove_subscriber i subscribers in if j == i then rest else j ∷ rest

module _ {E : Type 0} where
  -- Channel `i` becomes `channel`.
  abbrev pub put_channel : ℕ → Channel E → Channels E → Channels E
  put_channel i channel channels j = if j == i then channel else channels j

  abbrev pub empty_channel : Bool → Channel E
  empty_channel is_closed = record { queue = []; is_closed = is_closed }

  -- `NewMasterDataEventHub`.
  abbrev pub new_hub : Hub E
  new_hub = record {
    subscribers = [];
    closed = false;
    close_done = false;
    channels = λ i. empty_channel false;
    made = 0;
  }

  -- The send of `select` with a default, on a channel of capacity 8.
  unfoldable pub queued : E → Channel E → Channel E
  queued event channel =
      if ltb (length channel.queue) 8
      then record channel { queue = channel.queue ++ event ∷ [] }
      else channel

  -- `none` is the panic of a send on a closed channel.
  unfoldable pub try_send : E → ℕ → Channels E → Option (Channels E)
  unfolding queued
  try_send event i channels =
      let channel = channels i in
      if channel.is_closed then none else some (put_channel i (queued event channel) channels)

  unfoldable pub send_all : E → List ℕ → Channels E → Option (Channels E)
  unfolding try_send
  send_all event [] channels = some channels
  send_all event (i ∷ subscribers) channels = elim (try_send event i channels) [
    | none ↦ none
    | some sent ↦ send_all event subscribers sent
  ]

  abbrev pub with_channels : Hub E → Option (Channels E) → Option (Hub E)
  with_channels hub none = none
  with_channels hub (some channels) = some (record hub { channels = channels })

  -- `PublishMasterDataUpdated`; `none` is a panic, here and below.
  unfoldable pub publish : E → Hub E → Option (Hub E)
  unfolding send_all
  publish event hub =
      if hub.closed
      then some hub
      else with_channels hub (send_all event hub.subscribers hub.channels)

  -- `Subscribe`: the hub behind it; the channel returned is the one it makes.
  unfoldable pub subscribe : Hub E → Hub E
  subscribe hub =
      if hub.closed
      then record hub {
        channels = put_channel hub.made (empty_channel true) hub.channels;
        made = suc hub.made;
      }
      else record hub {
        subscribers = hub.made ∷ hub.subscribers;
        channels = put_channel hub.made (empty_channel false) hub.channels;
        made = suc hub.made;
      }

  -- `close(channel)`: a panic on a closed channel.
  unfoldable pub close_channel : ℕ → Channels E → Option (Channels E)
  close_channel i channels =
      let channel = channels i in
      if channel.is_closed
      then none
      else some (put_channel i (record channel { is_closed = true }) channels)

  -- The function that `Subscribe` returns with channel `i`. That of a closed hub does nothing, and
  -- its channel is no subscriber.
  unfoldable pub unsubscribe : ℕ → Hub E → Option (Hub E)
  unfolding is_subscribed remove_subscriber close_channel
  unsubscribe i hub =
      if is_subscribed i hub.subscribers
      then with_channels (record hub { subscribers = remove_subscriber i hub.subscribers })
          (close_channel i hub.channels)
      else some hub

  unfoldable pub close_all : List ℕ → Channels E → Option (Channels E)
  unfolding close_channel
  close_all [] channels = some channels
  close_all (i ∷ subscribers) channels = elim (close_channel i channels) [
    | none ↦ none
    | some rest ↦ close_all subscribers rest
  ]

  -- `Close`, once.
  unfoldable pub close : Hub E → Option (Hub E)
  unfolding close_all
  close hub =
      if hub.close_done
      then some hub
      else with_channels (record hub { subscribers = []; closed = true; close_done = true })
          (close_all hub.subscribers hub.channels)

  unfoldable pub rest_of : List E → List E
  rest_of [] = []
  rest_of (event ∷ events) = events

  -- A subscriber takes the next event of its channel, if there is one.
  unfoldable pub receive : ℕ → Hub E → Hub E
  unfolding rest_of
  receive i hub =
      let channel = hub.channels i in
      record hub {
        channels = put_channel i (record channel { queue = rest_of channel.queue }) hub.channels;
      }
