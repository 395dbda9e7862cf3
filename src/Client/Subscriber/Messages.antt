-- ===== src/Client/Subscriber/Messages.antt =====
-- What a subscriber receives of the messages that its connection's task is given.
use tokioconf_2026_workshop.Base.{
  ℕ, ◌+◌, ◌^◌, ◌<◌, ◌≡◌, refl, sym, ap, ◌∙◌, true, some, List, [], ◌∷◌, ◌++◌, map, append_assoc,
  append-nil, arith, Bytes, codes, ok, length, All, same,
}
use mathlib.Core.List.{flatten, append_cancel_left}
use tokioconf_2026_workshop.Client.{returned, idle}
use tokioconf_2026_workshop.Client.Subscriber.{Received, message_of, message_from, into_stream}
use tokioconf_2026_workshop.Command.Replies.{sent}
use tokioconf_2026_workshop.Command.Subscribe.{make_message_frame, write_built}
use tokioconf_2026_workshop.Connection
use tokioconf_2026_workshop.Connection.{Connection, received, read_frame}
use tokioconf_2026_workshop.Connection.Read.{read_frame-Delivers, nothing_left}
use tokioconf_2026_workshop.Connection.Write.{write_frame-encode}
use tokioconf_2026_workshop.Db.{Broadcast}
use tokioconf_2026_workshop.Frame.{Frame, bulk, array, cons, nil, push, size}
use tokioconf_2026_workshop.Frame.Display.{display}
use tokioconf_2026_workshop.Frame.Wire.{encode}
use tokioconf_2026_workshop.Server.Session.{Session, Event, message, subscribed, step, run, settle}
use tokioconf_2026_workshop.Std.Platform.{Platform}
use tokioconf_2026_workshop.Std.StreamMap.{StreamMap, has}
use tokioconf_2026_workshop.Std.Utf8.{is_utf8}

-- The wire format's own description of a message.
abbrev pub published : Received → Frame
published m =
    array (cons (bulk (codes "message")) (cons (bulk m.channel) (cons (bulk m.content) nil)))

abbrev pub posts : List Received → Bytes
posts [] = []
posts (m ∷ ms) = encode (published m) ++ posts ms

-- A text of a length that fits.
pub record IsMessage (m : Received) : Type 0 where
  pub channel_text : is_utf8 m.channel ≡ true
  pub content_text : is_utf8 m.content ≡ true
  pub channel_fits : length m.channel + 2 < 2 ^ 64
  pub content_fits : length m.content + 2 < 2 ^ 64

write_message_frame :
    (m : Received) (dst : Connection)
    → IsMessage m
    → write_built (make_message_frame m.channel m.content) dst
      ≡ ok (sent (encode (published m)) dst)
unfolding write_built make_message_frame size push
write_message_frame m dst h = write_frame-encode (published m) dst (
  unfold size in omega arith,
  (omega arith, (omega (arith, h.channel_fits), (omega (arith, h.content_fits), tt))),
)

message_of-published :
    (debug : Bytes → Bytes) (m : Received)
    → IsMessage m
    → message_of debug (published m) ≡ ok (some m)
unfolding message_of display same
message_of-published debug m h = rw (h.channel_text, h.content_text) refl

module _ (pf : Platform) (max : ℕ) (bc : Broadcast) (sm : StreamMap bc.Receiver) where
  -- The events of a connection's task to which the stream map gives these messages.
  abbrev pub arrivals : List Received → List (Event bc.Sender)
  arrivals = map (λ m. message m.channel m.content)

  step-message :
      (m : Received) (subs : sm.Streams) (x : Session sm.Streams bc.Sender)
      → IsMessage m
      → has m.channel (sm.keys subs) ≡ true
      → x.mode ≡ subscribed subs
      → step pf max bc sm (message m.channel m.content) x
        ≡ record x { connection = sent (encode (published m)) x.connection; mode = subscribed subs }
  unfolding step settle
  step-message m subs x h there e = rw (e, there, write_message_frame m x.connection h) refl

  pub run-messages :
      (ms : List Received) (subs : sm.Streams) (x : Session sm.Streams bc.Sender)
      → All IsMessage ms
      → All (λ m. has m.channel (sm.keys subs) ≡ true) ms
      → x.mode ≡ subscribed subs
      → (run pf max bc sm (arrivals ms) x).connection ≡ sent (posts ms) x.connection
  unfolding run
  run-messages [] subs x h there e =
      ap (λ b. record { stream = b; buffer = x.connection.buffer })
        (sym (append-nil x.connection.stream))
  run-messages (m ∷ ms) subs x (h, hs) (in_keys, there) e =
      ap (λ y. (run pf max bc sm (arrivals ms) y).connection) (step-message m subs x h in_keys e)
      ∙ run-messages ms subs _ hs there refl
      ∙ ap (λ b. record { stream = b; buffer = x.connection.buffer })
          (append_assoc x.connection.stream (encode (published m)) (posts ms))

module _ (pf : Platform) (debug : Bytes → Bytes) where
  -- The stream has yielded `ms`.
  Yields : List Received → Connection → List Bytes → Bytes → Type 0
  Yields ms c chunks more =
      (left : Bytes) × (later : List Bytes) × (into_stream pf debug (length ms) c
          (map received chunks)
        ≡ (ms, returned (ok tt) (record { stream = c.stream; buffer = left }) (map received later)))
      × (left ++ flatten later ≡ more)
      × All (λ s. 0 < length s) later

  then-Yields :
      (m : Received) (ms : List Received) (c : Connection) (chunks chunks' : List Bytes)
      (left more : Bytes)
      → IsMessage m
      → read_frame pf c (map received chunks)
        ≡ Connection.done
            (ok (some (published m), record { stream = c.stream; buffer = left }))
            (map received chunks')
      → Yields ms (record { stream = c.stream; buffer = left }) chunks' more
      → Yields (m ∷ ms) c chunks more
  unfolding Yields into_stream message_from
  then-Yields m ms c chunks chunks' left more h found (left', later, ran, rest, full) =
      (left', later, rw (into_stream, found, message_of-published debug m h, ran) refl, rest, full)

  into_stream-posts :
      (ms : List Received) (c : Connection) (chunks : List Bytes) (more : Bytes)
      → All IsMessage ms
      → All (λ s. 0 < length s) chunks
      → c.buffer ++ flatten chunks ≡ posts ms ++ more
      → Yields ms c chunks more
  unfolding Yields into_stream
  into_stream-posts [] c chunks more hs full e = (c.buffer, chunks, refl, e, full)
  into_stream-posts (m ∷ ms) c chunks more (h, hs) full e =
      let (left, later, found, rest, full') =
        read_frame-Delivers pf (published m) chunks c (posts ms ++ more)
          (unfold size in omega arith, (omega arith, (h.channel_fits, (h.content_fits, tt)))) full
          (e ∙ append_assoc (encode (published m)) (posts ms) more) in
      then-Yields m ms c chunks later left more h found (
        into_stream-posts ms (record { stream = c.stream; buffer = left }) later more hs full' rest)

  finish-Yields :
      (ms : List Received) (stream : Bytes) (chunks : List Bytes)
      → Yields ms (idle stream) chunks []
      → into_stream pf debug (length ms) (idle stream) (map received chunks)
        ≡ (ms, returned (ok tt) (idle stream) [])
  unfolding Yields
  finish-Yields ms stream chunks (left, later, ran, rest, full) =
      let (no_left, no_later) = nothing_left left later rest full in rw (no_left, no_later) at ran

module _ (pf : Platform) (debug : Bytes → Bytes) (max : ℕ) (bc : Broadcast)
    (sm : StreamMap bc.Receiver) where
  -- The task of a subscribed connection is given messages of channels that it is subscribed to, with
  -- texts of lengths that fit for the channel and the content. If the network brings the subscriber
  -- what the task has written since, cut anywhere, then the subscriber's stream yields exactly these
  -- messages, in order, and nothing is left over.
  pub into_stream-run :
      (ms : List Received) (subs : sm.Streams) (x : Session sm.Streams bc.Sender) (stream : Bytes)
      (back : List Bytes)
      → All IsMessage ms
      → All (λ m. has m.channel (sm.keys subs) ≡ true) ms
      → x.mode ≡ subscribed subs
      → All (λ s. 0 < length s) back
      → (run pf max bc sm (arrivals pf max bc sm ms) x).connection.stream
        ≡ x.connection.stream ++ flatten back
      → into_stream pf debug (length ms) (idle stream) (map received back)
        ≡ (ms, returned (ok tt) (idle stream) [])
  into_stream-run ms subs x stream back hs there e full brings =
      let wrote =
        ap (λ (c : Connection). c.stream) (run-messages pf max bc sm ms subs x hs there e) in
      let bytes : flatten back ≡ posts ms =
        append_cancel_left x.connection.stream _ _ (sym brings ∙ wrote) in
      finish-Yields pf debug ms stream back (
        into_stream-posts pf debug ms (idle stream) back [] hs full
          (bytes ∙ sym (append-nil (posts ms))))
