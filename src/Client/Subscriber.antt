-- ===== src/Client/Subscriber.antt =====
-- mini-redis/src/clients/client.rs: a client that has entered the subscribed state.
pub mod Unsubscribed
pub mod Messages
pub mod Subscribed
use tokioconf_2026_workshop.Base.{
  ℕ, zero, suc, ◌+◌, ◌-◌, Bool, true, false, not, ◌&&◌, Option, none, some, List, [], ◌∷◌, ◌++◌,
  Bytes, codes, ◌==◌, if◌then◌else◌, Outcome, ok, err, panic, out_of_fuel, length,
}
use tokioconf_2026_workshop.Client.{
  Call, returned, broken, pending, then_call, read_response, write_request,
}
use tokioconf_2026_workshop.Command.{subscribe, unsubscribe, into_frame}
use tokioconf_2026_workshop.Connection.{Connection, Arrival, Progress, done, waiting, read_frame}
use tokioconf_2026_workshop.Frame.{
  Frame, Frames, simple, error, integer, bulk, null, array, nil, cons, Message,
}
use tokioconf_2026_workshop.Frame.Display.{eq_text, to_error, display}
use tokioconf_2026_workshop.Std.Platform.{Platform}

-- `[subscribe, schannel, ..] if *subscribe == "subscribe" && *schannel == channel`
unfoldable pub confirms : Bytes → Frame → Bool
unfolding eq_text
confirms channel (array (cons kind (cons name rest))) =
    eq_text kind (codes "subscribe") && eq_text name channel
confirms channel (array (cons kind nil)) = false
confirms channel (array nil) = false
confirms channel (simple s) = false
confirms channel (error s) = false
confirms channel (integer n) = false
confirms channel (bulk s) = false
confirms channel null = false

unfoldable pub retain : (Bytes → Bool) → List Bytes → List Bytes
retain keep [] = []
retain keep (c ∷ cs) = let rest = retain keep cs in if keep c then c ∷ rest else rest

-- The list shrinks by one, or the acknowledgement is refused; the list stays changed then.
unfoldable pub shrunk : Frame → ℕ → List Bytes → Outcome Message (Unit {0}) × List Bytes
shrunk f len channels = (if length channels + 1 == len then ok tt else err (to_error f), channels)

-- `[unsubscribe, channel, ..] if *unsubscribe == "unsubscribe"`
unfoldable pub drop_channel :
    Frame → Frame → Frame → List Bytes → Outcome Message (Unit {0}) × List Bytes
unfolding shrunk retain eq_text
drop_channel f kind name channels =
    if eq_text kind (codes "unsubscribe")
    then if length channels == 0
      then (err (to_error f), channels)
      else shrunk f (length channels) (retain (λ c. not (eq_text name c)) channels)
    else (err (to_error f), channels)

unfoldable pub acknowledge : Frame → List Bytes → Outcome Message (Unit {0}) × List Bytes
unfolding drop_channel
acknowledge (array (cons kind (cons name rest))) channels =
    drop_channel (array (cons kind (cons name rest))) kind name channels
acknowledge (array (cons kind nil)) channels = (err (to_error (array (cons kind nil))), channels)
acknowledge (array nil) channels = (err (to_error (array nil)), channels)
acknowledge (simple s) channels = (err (to_error (simple s)), channels)
acknowledge (error s) channels = (err (to_error (error s)), channels)
acknowledge (integer n) channels = (err (to_error (integer n)), channels)
acknowledge (bulk s) channels = (err (to_error (bulk s)), channels)
acknowledge null channels = (err (to_error null), channels)

-- `struct Message`
pub record Received : Type 0 where
  pub channel : Bytes
  pub content : Bytes

module _ (debug : Bytes → Bytes) where
  -- `[message, channel, content] if *message == "message"`
  unfoldable pub message_of : Frame → Outcome Message (Option Received)
  unfolding eq_text
  message_of (array (cons kind (cons channel (cons content nil)))) =
      if eq_text kind (codes "message")
      then ok (some (record { channel = display debug channel; content = display debug content }))
      else err (to_error (array (cons kind (cons channel (cons content nil)))))
  message_of f = err (to_error f)

-- What the method does to its connection and its list.
abbrev pub Unsubscribing : Type 0
Unsubscribing = Call (Unit {0}) × List Bytes

-- An acknowledgement that is refused ends the loop.
abbrev pub then_await :
    Outcome Message (Unit {0}) × List Bytes
    → Connection
    → List Arrival
    → (List Bytes → Unsubscribing)
    → Unsubscribing
then_await (ok _, channels) c later k = k channels
then_await (err m, channels) c later k = (returned (err m) c later, channels)
then_await (panic, channels) c later k = (returned panic c later, channels)
then_await (out_of_fuel, channels) c later k = (returned out_of_fuel c later, channels)

module _ (pf : Platform) where
  -- One response for each channel.
  unfoldable pub await_confirmations : List Bytes → Connection → List Arrival → Call (Unit {0})
  unfolding confirms read_response
  await_confirmations [] c later = returned (ok tt) c later
  await_confirmations (channel ∷ channels) c later =
      then_call (read_response pf c later) λ f c' later'. elim (confirms channel f) [
        | true ↦ await_confirmations channels c' later'
        | false ↦ returned (err (to_error f)) c' later'
      ]

  unfoldable pub subscribe_cmd : List Bytes → Connection → List Arrival → Call (Unit {0})
  unfolding await_confirmations write_request
  subscribe_cmd channels c later =
      then_call (write_request (into_frame (subscribe channels)) c later)
        λ _ c' later'. await_confirmations channels c' later'

  -- `Client::subscribe` gives a `Subscriber` with the channels.
  unfoldable pub client_subscribe : List Bytes → Connection → List Arrival → Call (List Bytes)
  unfolding subscribe_cmd
  client_subscribe channels c later =
      then_call (subscribe_cmd channels c later) λ _ c' later'. returned (ok channels) c' later'

  -- `Subscriber::subscribe`; the second part is `subscribed_channels`.
  unfoldable pub subscribe_more :
      List Bytes → List Bytes → Connection → List Arrival → Call (List Bytes)
  unfolding subscribe_cmd
  subscribe_more channels subscribed_channels c later =
      then_call (subscribe_cmd channels c later)
        λ _ c' later'. returned (ok (subscribed_channels ++ channels)) c' later'

  unfoldable pub await_acknowledgements : ℕ → List Bytes → Connection → List Arrival → Unsubscribing
  unfolding acknowledge read_response
  await_acknowledgements zero channels c later = (returned (ok tt) c later, channels)
  await_acknowledgements (suc n) channels c later = elim (read_response pf c later) [
    | returned (ok f) c' later' ↦
        then_await (acknowledge f channels) c' later'
          λ channels'. await_acknowledgements n channels' c' later'
    | returned (err m) c' later' ↦ (returned (err m) c' later', channels)
    | returned panic c' later' ↦ (returned panic c' later', channels)
    | returned out_of_fuel c' later' ↦ (returned out_of_fuel c' later', channels)
    | broken r ↦ (broken r, channels)
    | pending c' ↦ (pending c', channels)
  ]

  -- As many responses as channels are named; all those in the list, if none is named.
  unfoldable pub expected : List Bytes → List Bytes → ℕ
  expected [] subscribed_channels = length subscribed_channels
  expected (c ∷ cs) subscribed_channels = length (c ∷ cs)

  unfoldable pub client_unsubscribe :
      List Bytes → List Bytes → Connection → List Arrival → Unsubscribing
  unfolding await_acknowledgements expected write_request
  client_unsubscribe channels subscribed_channels c later =
      elim (write_request (into_frame (unsubscribe channels)) c later) [
        | returned (ok _) c' later' ↦
            await_acknowledgements (expected channels subscribed_channels) subscribed_channels c'
              later'
        | returned (err m) c' later' ↦ (returned (err m) c' later', subscribed_channels)
        | returned panic c' later' ↦ (returned panic c' later', subscribed_channels)
        | returned out_of_fuel c' later' ↦ (returned out_of_fuel c' later', subscribed_channels)
        | broken r ↦ (broken r, subscribed_channels)
        | pending c' ↦ (pending c', subscribed_channels)
      ]

  unfoldable pub message_from : (Bytes → Bytes) → Progress → Call (Option Received)
  unfolding message_of
  message_from debug (done (ok (some f, c)) later) = returned (message_of debug f) c later
  message_from debug (done (ok (none, c)) later) = returned (ok none) c later
  message_from debug (done (err (m, c)) later) = returned (err m) c later
  message_from debug (done panic later) = broken panic
  message_from debug (done out_of_fuel later) = broken out_of_fuel
  message_from debug (waiting c) = pending c

  unfoldable pub next_message : (Bytes → Bytes) → Connection → List Arrival → Call (Option Received)
  unfolding message_from read_frame
  next_message debug c later = message_from debug (read_frame pf c later)

  -- What `into_stream` yields when it is polled for `n` messages, and where it stands then.
  unfoldable pub into_stream :
      (Bytes → Bytes) → ℕ → Connection → List Arrival → List Received × Call (Unit {0})
  unfolding next_message
  into_stream debug zero c later = ([], returned (ok tt) c later)
  into_stream debug (suc n) c later = elim (next_message debug c later) [
    | returned (ok (some m)) c' later' ↦ let (ms, r) = into_stream debug n c' later' in (m ∷ ms, r)
    | returned (ok none) c' later' ↦ ([], returned (ok tt) c' later')
    | returned (err e) c' later' ↦ ([], returned (err e) c' later')
    | returned panic c' later' ↦ ([], returned panic c' later')
    | returned out_of_fuel c' later' ↦ ([], returned out_of_fuel c' later')
    | broken r ↦ ([], broken r)
    | pending c' ↦ ([], pending c')
  ]
