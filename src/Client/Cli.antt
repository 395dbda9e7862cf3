-- ===== src/Client/Cli.antt =====
-- mini-redis/src/bin/cli.rs: a command of the command line, the call of the client, and the lines that
-- are printed. `clap` parses the command line; `debug` is the format of `{:?}`.
pub mod Printed
use tokioconf_2026_workshop.Base.{
  ℕ, zero, suc, ◌*◌, ◌^◌, ◌+◌, ◌<◌, ◌≡◌, refl, ap, ◌∙◌, Option, none, some, List, [], ◌∷◌, ◌++◌,
  map, Bytes, codes, Outcome, ok, err, panic, out_of_fuel, length, All, ltb, lt→ltb, ◌==◌,
  if◌then◌else◌,
}
use mathlib.Core.List.{flatten}
use mathlib.Core.Option
use tokioconf_2026_workshop.Bench.{digits}
use tokioconf_2026_workshop.Client.{
  idle, Call, returned, broken, pending, client_ping, client_get, client_set, set_expires,
  client_publish,
}
use tokioconf_2026_workshop.Client.Subscriber.{Received, client_subscribe, next_message}
use tokioconf_2026_workshop.Command.{from_millis}
use tokioconf_2026_workshop.Connection.{Connection, Arrival, received}
use tokioconf_2026_workshop.Db.{Broadcast, State}
use tokioconf_2026_workshop.Frame.{Message, text}
use tokioconf_2026_workshop.Server.Session.Store.{view, IsBounded}
use tokioconf_2026_workshop.Std.Platform.{Platform}
use tokioconf_2026_workshop.Std.StreamMap.{StreamMap}
use tokioconf_2026_workshop.Std.Utf8.{is_utf8}

pub data Command : Type 0 where
  ping : Option Bytes → Command
  get : Bytes → Command
  set : Bytes → Bytes → Option ℕ → Command
  publish : Bytes → Bytes → Command
  subscribe : List Bytes → Command

-- `str::parse::<u64>`: an optional plus sign, then digits, in range.
unfoldable pub bounded : ℕ → Option ℕ
bounded n = if ltb n (2 ^ 64) then some n else none

unfoldable pub parse_u64 : Bytes → Option ℕ
unfolding digits bounded
parse_u64 [] = none
parse_u64 (c ∷ s) =
    if c == b'+' then Option.bind (digits s) bounded else Option.bind (digits (c ∷ s)) bounded

unfoldable pub duration_from_ms_str : Bytes → Option ℕ
unfolding parse_u64
duration_from_ms_str src = Option.map from_millis (parse_u64 src)

-- The lines that are printed, and how `main` ends.
abbrev pub Ran : Type 0
Ran = List Bytes × Call (Unit {0})

-- `await?`, and what is printed then.
unfoldable pub print_after : {A : Type 0} → Call A → (A → Bytes) → Ran
print_after (returned (ok a) c later) line = (line a ∷ [], returned (ok tt) c later)
print_after (returned (err m) c later) line = ([], returned (err m) c later)
print_after (returned panic c later) line = ([], returned panic c later)
print_after (returned out_of_fuel c later) line = ([], returned out_of_fuel c later)
print_after (broken r) line = ([], broken r)
print_after (pending c) line = ([], pending c)

module _ (debug : Bytes → Bytes) where
  -- A value, in quotes if it is text.
  unfoldable pub quoted : Bytes → Bytes
  unfolding is_utf8
  quoted value = if is_utf8 value then b'"' ∷ (value ++ b'"' ∷ []) else debug value

  unfoldable pub quoted_or_nil : Option Bytes → Bytes
  unfolding quoted
  quoted_or_nil (some value) = quoted value
  quoted_or_nil none = codes "(nil)"

  unfoldable pub message_line : Received → Bytes
  message_line msg =
      codes "got message from the channel: "
      ++ (msg.channel ++ (codes "; message = " ++ debug msg.content))

module _ (pf : Platform) (debug : Bytes → Bytes) where
  -- `while let Some(msg) = subscriber.next_message().await?`, for `n` messages at most.
  unfoldable pub listen : ℕ → Connection → List Arrival → Ran
  unfolding next_message message_line
  listen zero c later = ([], returned (ok tt) c later)
  listen (suc n) c later = elim (next_message pf debug c later) [
    | returned (ok (some msg)) c' later' ↦
        let (lines, r) = listen n c' later' in (message_line debug msg ∷ lines, r)
    | returned (ok none) c' later' ↦ ([], returned (ok tt) c' later')
    | returned (err m) c' later' ↦ ([], returned (err m) c' later')
    | returned panic c' later' ↦ ([], returned panic c' later')
    | returned out_of_fuel c' later' ↦ ([], returned out_of_fuel c' later')
    | broken r ↦ ([], broken r)
    | pending c' ↦ ([], pending c')
  ]

  subscribed : ℕ → Call (List Bytes) → Ran
  unfolding listen
  subscribed n (returned (ok channels) c later) = listen n c later
  subscribed n (returned (err m) c later) = ([], returned (err m) c later)
  subscribed n (returned panic c later) = ([], returned panic c later)
  subscribed n (returned out_of_fuel c later) = ([], returned out_of_fuel c later)
  subscribed n (broken r) = ([], broken r)
  subscribed n (pending c) = ([], pending c)

  -- `main` behind `Client::connect`; `n` bounds the messages of a subscription.
  unfoldable pub main : ℕ → Command → Connection → List Arrival → Ran
  unfolding print_after client_ping client_get client_set set_expires client_publish subscribed
      quoted_or_nil client_subscribe
  main n (ping msg) c later = print_after (client_ping pf msg c later) (quoted debug)
  main n (get key) c later = print_after (client_get pf key c later) (quoted_or_nil debug)
  main n (set key value none) c later =
      print_after (client_set pf key value c later) (λ _. codes "OK")
  main n (set key value (some expires)) c later =
      print_after (set_expires pf key value expires c later) (λ _. codes "OK")
  main n (publish channel message) c later =
      print_after (client_publish pf channel message c later) (λ _. codes "Publish OK")
  main n (subscribe []) c later =
      ([], returned (err (text (codes "channel(s) must be provided"))) c later)
  main n (subscribe (channel ∷ channels)) c later =
      subscribed n (client_subscribe pf (channel ∷ channels) c later)
