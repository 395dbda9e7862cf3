-- ===== src/Client/Blocking.antt =====
-- mini-redis/src/clients/blocking_client.rs: each call runs the asynchronous client until it returns.
-- A call that is pending blocks the thread.
pub mod Iterated
use tokioconf_2026_workshop.Base.{
  ℕ, zero, suc, ◌-◌, ◌≡◌, refl, sym, ap, ◌∙◌, Option, none, some, List, [], ◌∷◌, ◌++◌, map, arith,
  Bytes, Outcome, ok, err, panic, out_of_fuel, length,
}
use tokioconf_2026_workshop.Client.{
  Call, returned, broken, pending, client_get, client_set, client_publish,
}
use tokioconf_2026_workshop.Client
use tokioconf_2026_workshop.Client.Subscriber
use tokioconf_2026_workshop.Client.Subscriber.{
  Received, client_subscribe, client_unsubscribe, Unsubscribing, into_stream, message_of,
  message_from,
}
use tokioconf_2026_workshop.Connection.{Connection, Arrival, Progress, done, waiting, read_frame}
use tokioconf_2026_workshop.Frame.{Message}
use tokioconf_2026_workshop.Std.Platform.{Platform}

-- `Result<Option<T>>::transpose`, for what one call of the iterator yields. A call that writes nothing
-- is `broken` only by a panic.
unfoldable pub transpose : Call (Option Received) → Call (Option (Outcome Message Received))
transpose (returned (ok none) c later) = returned (ok none) c later
transpose (returned (ok (some m)) c later) = returned (ok (some (ok m))) c later
transpose (returned (err e) c later) = returned (ok (some (err e))) c later
transpose (returned panic c later) = returned panic c later
transpose (returned out_of_fuel c later) = returned out_of_fuel c later
transpose (broken r) = broken r
transpose (pending c) = pending c

-- `Runtime::block_on` of a method's future; the future's own steps are those of the call.
unfoldable pub block_on : {A : Type 0} → Call A → Call A
block_on call = call

module _ (pf : Platform) where
  unfoldable pub get : Bytes → Connection → List Arrival → Call (Option Bytes)
  unfolding client_get block_on
  get key c later = block_on (client_get pf key c later)

  unfoldable pub set : Bytes → Bytes → Connection → List Arrival → Call (Unit {0})
  unfolding client_set block_on
  set key value c later = block_on (client_set pf key value c later)

  unfoldable pub set_expires : Bytes → Bytes → ℕ → Connection → List Arrival → Call (Unit {0})
  unfolding Client.set_expires block_on
  set_expires key value expiration c later =
      block_on (Client.set_expires pf key value expiration c later)

  unfoldable pub publish : Bytes → Bytes → Connection → List Arrival → Call ℕ
  unfolding client_publish block_on
  publish channel message c later = block_on (client_publish pf channel message c later)

  -- The `BlockingSubscriber` has the connection and the list of channels.
  unfoldable pub subscribe : List Bytes → Connection → List Arrival → Call (List Bytes)
  unfolding client_subscribe block_on
  subscribe channels c later = block_on (client_subscribe pf channels c later)

  unfoldable pub next_message : (Bytes → Bytes) → Connection → List Arrival → Call (Option Received)
  unfolding Subscriber.next_message block_on
  next_message debug c later = block_on (Subscriber.next_message pf debug c later)

  unfoldable pub subscribe_more :
      List Bytes → List Bytes → Connection → List Arrival → Call (List Bytes)
  unfolding Subscriber.subscribe_more block_on
  subscribe_more channels subscribed_channels c later =
      block_on (Subscriber.subscribe_more pf channels subscribed_channels c later)

  unfoldable pub unsubscribe : List Bytes → List Bytes → Connection → List Arrival → Unsubscribing
  unfolding client_unsubscribe block_on
  unsubscribe channels subscribed_channels c later =
      let (call, channels') = client_unsubscribe pf channels subscribed_channels c later in
      (block_on call, channels')

  -- `SubscriberIterator::next`.
  unfoldable pub next :
      (Bytes → Bytes) → Connection → List Arrival → Call (Option (Outcome Message Received))
  unfolding next_message transpose
  next debug c later = transpose (next_message debug c later)

  -- What a loop over `into_iter` sees in `n` rounds at most, and where it stands then.
  unfoldable pub into_iter :
      (Bytes → Bytes)
      → ℕ
      → Connection
      → List Arrival
      → List (Outcome Message Received) × Call (Unit {0})
  unfolding next
  into_iter debug zero c later = ([], returned (ok tt) c later)
  into_iter debug (suc n) c later = elim (next debug c later) [
    | returned (ok (some item)) c' later' ↦
        let (items, r) = into_iter debug n c' later' in (item ∷ items, r)
    | returned (ok none) c' later' ↦ ([], returned (ok tt) c' later')
    | returned (err e) c' later' ↦ ([], returned (err e) c' later')
    | returned panic c' later' ↦ ([], returned panic c' later')
    | returned out_of_fuel c' later' ↦ ([], returned out_of_fuel c' later')
    | broken r ↦ ([], broken r)
    | pending c' ↦ ([], pending c')
  ]

  -- Behind what the stream has yielded, an error of the stream is one more item, and the iterator
  -- goes on for `rounds` rounds.
  unfoldable pub resumed :
      (Bytes → Bytes)
      → (List Received → ℕ)
      → List Received × Call (Unit {0})
      → List (Outcome Message Received) × Call (Unit {0})
  unfolding into_iter
  resumed debug rounds (ms, returned (err e) c later) =
      let (items, r) = into_iter debug (rounds ms) c later in (map ok ms ++ err e ∷ items, r)
  resumed debug rounds (ms, returned (ok _) c later) = (map ok ms, returned (ok tt) c later)
  resumed debug rounds (ms, returned panic c later) = (map ok ms, returned panic c later)
  resumed debug rounds (ms, returned out_of_fuel c later) =
      (map ok ms, returned out_of_fuel c later)
  resumed debug rounds (ms, broken r) = (map ok ms, broken r)
  resumed debug rounds (ms, pending c) = (map ok ms, pending c)
