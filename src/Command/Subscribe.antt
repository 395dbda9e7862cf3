-- ===== src/Command/Subscribe.antt =====
-- mini-redis/src/cmd/subscribe.rs: what the server does for `SUBSCRIBE`, and for the commands that
-- come on a subscribed connection.
pub mod Acknowledged
pub mod Confirmed
use tokioconf_2026_workshop.Base.{
  ℕ, Option, none, some, List, [], ◌∷◌, ◌++◌, Bytes, codes, Outcome, ok, err, panic, out_of_fuel,
  and_then, length,
}
use tokioconf_2026_workshop.Command.{
  Command, subscribe, unsubscribe, get, set, publish, ping, unknown, from_frame, get_name,
}
use tokioconf_2026_workshop.Command.Apply.{apply_unknown}
use tokioconf_2026_workshop.Connection.{Connection, write_frame}
use tokioconf_2026_workshop.Db
use tokioconf_2026_workshop.Db.{Broadcast, Shared}
use tokioconf_2026_workshop.Frame.{Frame, Message, push_bulk, push_int, empty_array}
use tokioconf_2026_workshop.Std.Platform.{Platform}
use tokioconf_2026_workshop.Std.StreamMap.{StreamMap}

-- `Ok` or an error or a panic, and the database afterwards.
abbrev pub Effect : Type 0 → Type 0 → Type 0
Effect S A = Outcome Message A × S

infixl 1 ◌>>=◌
abbrev pub ◌>>=◌ : {S A B : Type 0} → Effect S A → (A → S → Effect S B) → Effect S B
(ok a, s) >>= f = f a s
(err m, s) >>= f = (err m, s)
(panic, s) >>= f = (panic, s)
(out_of_fuel, s) >>= f = (out_of_fuel, s)

-- The two array frames that acknowledge a channel; `kind` is the word in front.
unfoldable pub acknowledgement : Bytes → Bytes → ℕ → Outcome Message Frame
unfolding push_bulk push_int empty_array
acknowledgement kind channel count =
    and_then (push_bulk empty_array kind) λ f. and_then (push_bulk f channel) λ g. push_int g count

unfoldable pub make_subscribe_frame : Bytes → ℕ → Outcome Message Frame
unfolding acknowledgement
make_subscribe_frame = acknowledgement (codes "subscribe")

unfoldable pub make_unsubscribe_frame : Bytes → ℕ → Outcome Message Frame
unfolding acknowledgement
make_unsubscribe_frame = acknowledgement (codes "unsubscribe")

unfoldable pub make_message_frame : Bytes → Bytes → Outcome Message Frame
unfolding push_bulk empty_array
make_message_frame channel msg =
    and_then (push_bulk empty_array (codes "message"))
      λ f. and_then (push_bulk f channel) λ g. push_bulk g msg

-- Build a frame and write it.
unfoldable pub write_built : Outcome Message Frame → Connection → Outcome Message Connection
write_built frame dst = and_then frame λ f. write_frame f dst

module _ (pf : Platform) (bc : Broadcast) (sm : StreamMap bc.Receiver) where
  open sm use {Streams, empty, insert, remove, keys}

  -- The subscriptions of a connection, and the connection.
  abbrev pub Subscribed : Type 0
  Subscribed = Streams × Connection

  -- `db.subscribe` has returned, or panicked.
  unfoldable pub track :
      Bytes
      → Streams
      → Connection
      → Option bc.Receiver × Shared bc.Sender
      → Effect (Shared bc.Sender) Subscribed
  unfolding write_built make_subscribe_frame
  track channel subs dst (none, s) = (panic, s)
  track channel subs dst (some rx, s) = (
    and_then
        (write_built (make_subscribe_frame channel (length (keys (insert channel rx subs)))) dst)
        λ dst'. ok (insert channel rx subs, dst'),
    s,
  )

  unfoldable pub subscribe_to_channel :
      Bytes → Streams → Connection → Shared bc.Sender → Effect (Shared bc.Sender) Subscribed
  unfolding track
  subscribe_to_channel channel subs dst s = track channel subs dst (Db.subscribe bc channel s)

  -- `for channel_name in self.channels.drain(..)`
  unfoldable pub subscribe_each :
      List Bytes → Streams → Connection → Shared bc.Sender → Effect (Shared bc.Sender) Subscribed
  unfolding subscribe_to_channel
  subscribe_each [] subs dst s = (ok (subs, dst), s)
  subscribe_each (channel ∷ channels) subs dst s =
      subscribe_to_channel channel subs dst s >>= λ (subs', dst') s'.
      subscribe_each channels subs' dst' s'

  -- `for channel_name in unsubscribe.channels`
  unfoldable pub unsubscribe_each : List Bytes → Streams → Connection → Outcome Message Subscribed
  unfolding write_built make_unsubscribe_frame
  unsubscribe_each [] subs dst = ok (subs, dst)
  unsubscribe_each (channel ∷ channels) subs dst =
      and_then
        (write_built (make_unsubscribe_frame channel (length (keys (remove channel subs)))) dst)
        λ dst'. unsubscribe_each channels (remove channel subs) dst'

  -- No channels named: all those subscribed to.
  unfoldable pub or_all : List Bytes → Streams → List Bytes
  or_all [] subs = keys subs
  or_all (channel ∷ channels) subs = channel ∷ channels

  -- The match on the command; the channels to subscribe to come first in the result.
  unfoldable pub handle : Command → Streams → Connection → Outcome Message (List Bytes × Subscribed)
  unfolding unsubscribe_each or_all apply_unknown get_name
  handle (subscribe names) subs dst = ok (names, (subs, dst))
  handle (unsubscribe names) subs dst =
      and_then (unsubscribe_each (or_all names subs) subs dst) λ r. ok ([], r)
  handle (get key) subs dst =
      and_then (apply_unknown (get_name (get key)) dst) λ dst'. ok ([], (subs, dst'))
  handle (set key value expire) subs dst =
      and_then (apply_unknown (get_name (set key value expire)) dst) λ dst'. ok ([], (subs, dst'))
  handle (publish channel message) subs dst =
      and_then (apply_unknown (get_name (publish channel message)) dst)
        λ dst'. ok ([], (subs, dst'))
  handle (ping msg) subs dst =
      and_then (apply_unknown (get_name (ping msg)) dst) λ dst'. ok ([], (subs, dst'))
  handle (unknown name) subs dst =
      and_then (apply_unknown (get_name (unknown name)) dst) λ dst'. ok ([], (subs, dst'))

  unfoldable pub handle_command :
      Frame → Streams → Connection → Outcome Message (List Bytes × Subscribed)
  unfolding handle
  handle_command frame subs dst = and_then (from_frame pf frame) λ c. handle c subs dst

  -- `handle_command`, and the head of the loop that follows.
  unfoldable pub on_frame :
      Frame → Streams → Connection → Shared bc.Sender → Effect (Shared bc.Sender) Subscribed
  unfolding handle_command subscribe_each
  on_frame frame subs dst s = (handle_command frame subs dst, s) >>= λ (channels, (subs', dst')) s'.
      subscribe_each channels subs' dst' s'
