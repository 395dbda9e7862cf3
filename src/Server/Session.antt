-- ===== src/Server/Session.antt =====
-- The life of one connection: `Handler::run` of mini-redis/src/server.rs, `Command::apply` of
-- cmd/mod.rs, `Subscribe::apply` of cmd/subscribe.rs, and shutdown.rs, as a machine whose inputs say
-- which branch of a `select!` was taken.
pub mod Store
pub mod Pipeline
pub mod Effects
pub mod Turn
use tokioconf_2026_workshop.Base.{
  ℕ, Bool, true, false, Option, none, some, List, [], ◌∷◌, ◌++◌, Bytes, codes, if◌then◌else◌,
  Outcome, ok, err, panic, out_of_fuel, and_then,
}
use tokioconf_2026_workshop.Command.{
  Command, subscribe, unsubscribe, get, set, publish, ping, unknown, from_frame,
}
use tokioconf_2026_workshop.Command.Apply.{
  apply_get, apply_set, apply_publish, apply_ping, apply_unknown,
}
use tokioconf_2026_workshop.Command.Subscribe.{
  Effect, ◌>>=◌, subscribe_each, on_frame, make_message_frame, write_built,
}
use tokioconf_2026_workshop.Connection.{
  Connection, Arrival, Progress, done, waiting, read_frame, write_frame,
}
use tokioconf_2026_workshop.Db.{Broadcast, Shared}
use tokioconf_2026_workshop.Frame.{Frame, Message, text}
use tokioconf_2026_workshop.Std.Platform.{Platform}
use tokioconf_2026_workshop.Std.StreamMap.{StreamMap, has}

-- `Shutdown`, but for the receiver that it waits on.
pub record Shutdown : Type 0 where
  pub is_shutdown : Bool

abbrev pub new_shutdown : Shutdown
new_shutdown = record { is_shutdown = false }

-- `recv`, once the signal is there; a second call returns at once and changes nothing.
unfoldable pub recv : Shutdown → Shutdown
recv sd = record { is_shutdown = true }

-- Where the code of the connection's task stands.
pub data Mode (Streams : Type 0) : Type 0 where
  serving : Mode Streams
  subscribed : Streams → Mode Streams
  ended : Outcome Message (Unit {0}) → Mode Streams

pub record Session (Streams Sender : Type 0) : Type 0 where
  pub connection : Connection
  -- What the network brings, not yet received.
  pub incoming : List Arrival
  pub shared : Shared Sender
  pub shutdown : Shutdown
  pub mode : Mode Streams

-- `others` is what the other connections and the background task do to the database meanwhile.
pub data Event (Sender : Type 0) : Type 0 where
  delivered : Arrival → Event Sender
  read : ℕ → Event Sender
  message : Bytes → Bytes → Event Sender
  shut_down : Event Sender
  others : Shared Sender → Event Sender

module _ (pf : Platform) (max : ℕ) (bc : Broadcast) (sm : StreamMap bc.Receiver) where
  open sm use {Streams, empty, keys}

  -- Back in the loop of the handler, or in that of `Subscribe::apply`.
  abbrev pub Place : Type 0
  Place = Option Streams × Connection

  abbrev pub back : Outcome Message Connection × Shared bc.Sender → Effect (Shared bc.Sender) Place
  back (r, s) = (and_then r λ dst. ok (none, dst), s)

  unfoldable pub apply :
      ℕ → Command → Connection → Shared bc.Sender → Effect (Shared bc.Sender) Place
  unfolding apply_get apply_set apply_publish apply_ping apply_unknown subscribe_each
  apply now (get key) dst s = back (apply_get key dst s)
  apply now (publish channel payload) dst s = back (apply_publish bc channel payload dst s)
  apply now (set key value expire) dst s = back (apply_set max now key value expire dst s)
  apply now (subscribe names) dst s =
      subscribe_each pf bc sm names empty dst s >>= λ (subs, dst') s'. (ok (some subs, dst'), s')
  apply now (unsubscribe names) dst s =
      (err (text (codes "`Unsubscribe` is unsupported in this context")), s)
  apply now (ping msg) dst s = back (apply_ping msg dst, s)
  apply now (unknown name) dst s = back (apply_unknown name dst, s)

  -- The body of the handler's loop behind `read_frame`.
  unfoldable pub serve : ℕ → Frame → Connection → Shared bc.Sender → Effect (Shared bc.Sender) Place
  unfolding apply
  serve now frame dst s = (from_frame pf frame, s) >>= λ cmd s'. apply now cmd dst s'

  -- `while !self.shutdown.is_shutdown()`
  unfoldable pub loop_head : Shutdown → Mode Streams
  loop_head sd = if sd.is_shutdown then ended (ok tt) else serving

  unfoldable pub mode_of : Shutdown → Option Streams → Mode Streams
  unfolding loop_head
  mode_of sd none = loop_head sd
  mode_of sd (some subs) = subscribed subs

  -- The session after a handled frame; an error or a panic ends the task.
  unfoldable pub settle :
      Effect (Shared bc.Sender) Place → Session Streams bc.Sender → Session Streams bc.Sender
  unfolding mode_of
  settle (ok (o, dst), s) x = record x { connection = dst; shared = s; mode = mode_of x.shutdown o }
  settle (err m, s) x = record x { shared = s; mode = ended (err m) }
  settle (panic, s) x = record x { shared = s; mode = ended panic }
  settle (out_of_fuel, s) x = record x { shared = s; mode = ended out_of_fuel }

  -- `read_frame` in the loop of the handler.
  unfoldable pub serve_read : ℕ → Progress → Session Streams bc.Sender → Session Streams bc.Sender
  unfolding settle serve
  serve_read now (done (ok (some f, c)) later) x =
      settle (serve now f c x.shared) (record x { connection = c; incoming = later })
  serve_read now (done (ok (none, c)) later) x = record x {
    connection = c;
    incoming = later;
    mode = ended (ok tt);
  }
  serve_read now (done (err (m, _)) later) x = record x { incoming = later; mode = ended (err m) }
  serve_read now (done panic later) x = record x { incoming = later; mode = ended panic }
  serve_read now (done out_of_fuel later) x = record x {
    incoming = later;
    mode = ended out_of_fuel;
  }
  serve_read now (waiting c) x = record x { connection = c; incoming = [] }

  abbrev pub stay :
      Effect (Shared bc.Sender) (Streams × Connection) → Effect (Shared bc.Sender) Place
  stay r = r >>= λ (subs, dst) s. (ok (some subs, dst), s)

  -- `read_frame` in the loop of `Subscribe::apply`, which returns if the client has gone.
  unfoldable pub subscribed_read :
      Streams → Progress → Session Streams bc.Sender → Session Streams bc.Sender
  unfolding settle on_frame loop_head
  subscribed_read subs (done (ok (some f, c)) later) x =
      settle (stay (on_frame pf bc sm f subs c x.shared))
        (record x { connection = c; incoming = later })
  subscribed_read subs (done (ok (none, c)) later) x = record x {
    connection = c;
    incoming = later;
    mode = loop_head x.shutdown;
  }
  subscribed_read subs (done (err (m, _)) later) x = record x {
    incoming = later;
    mode = ended (err m);
  }
  subscribed_read subs (done panic later) x = record x { incoming = later; mode = ended panic }
  subscribed_read subs (done out_of_fuel later) x = record x {
    incoming = later;
    mode = ended out_of_fuel;
  }
  subscribed_read subs (waiting c) x = record x { connection = c; incoming = [] }

  unfoldable pub on_read : ℕ → Mode Streams → Session Streams bc.Sender → Session Streams bc.Sender
  unfolding serve_read subscribed_read read_frame
  on_read now serving x = serve_read now (read_frame pf x.connection x.incoming) x
  on_read now (subscribed subs) x = subscribed_read subs (read_frame pf x.connection x.incoming) x
  on_read now (ended r) x = x

  -- A message of a channel that the connection is subscribed to; there are no others.
  unfoldable pub on_message :
      Bytes → Bytes → Mode Streams → Session Streams bc.Sender → Session Streams bc.Sender
  unfolding settle write_built make_message_frame
  on_message channel msg (subscribed subs) x =
      if has channel (keys subs)
      then settle
          (stay (
            and_then (write_built (make_message_frame channel msg) x.connection)
                λ dst. ok (subs, dst),
            x.shared,
          ))
          x
      else x
  on_message channel msg serving x = x
  on_message channel msg (ended r) x = x

  -- Both loops return, and the handler's then sees the flag.
  unfoldable pub on_shut_down : Mode Streams → Session Streams bc.Sender → Session Streams bc.Sender
  unfolding recv loop_head
  on_shut_down serving x = record x { shutdown = recv x.shutdown; mode = ended (ok tt) }
  on_shut_down (subscribed subs) x = record x {
    shutdown = recv x.shutdown;
    mode = loop_head (recv x.shutdown);
  }
  on_shut_down (ended r) x = x

  unfoldable pub step : Event bc.Sender → Session Streams bc.Sender → Session Streams bc.Sender
  unfolding on_read on_message on_shut_down
  step (delivered a) x = record x { incoming = x.incoming ++ a ∷ [] }
  step (read now) x = on_read now x.mode x
  step (message channel msg) x = on_message channel msg x.mode x
  step shut_down x = on_shut_down x.mode x
  step (others s) x = record x { shared = s }

  unfoldable pub run :
      List (Event bc.Sender) → Session Streams bc.Sender → Session Streams bc.Sender
  unfolding step
  run [] x = x
  run (e ∷ es) x = run es (step e x)
