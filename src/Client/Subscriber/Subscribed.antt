-- ===== src/Client/Subscriber/Subscribed.antt =====
-- A client that subscribes, against what the server does for it.
use tokioconf_2026_workshop.Base.{
  ℕ, ◌+◌, ◌^◌, ◌<◌, ◌≡◌, refl, sym, ap, ◌∙◌, Bool, true, false, some, List, [], ◌∷◌, ◌++◌, map,
  append_assoc, append-nil, arith, Bytes, codes, ok, err, length, All, same, same_refl,
}
use mathlib.Core.List.{flatten, append_cancel_left}
use tokioconf_2026_workshop.Client.{Call, returned, read_response, write_request, idle}
use tokioconf_2026_workshop.Client.Subscriber.{confirms, await_confirmations, client_subscribe}
use tokioconf_2026_workshop.Command.Subscribe.Acknowledged.{IsName}
use tokioconf_2026_workshop.Command.{subscribe, into_frame}
use tokioconf_2026_workshop.Command.Replies.{sent}
use tokioconf_2026_workshop.Command.RoundTrip.{bulks, push_each-bulks}
use tokioconf_2026_workshop.Command.Subscribe.{subscribe_each}
use tokioconf_2026_workshop.Connection
use tokioconf_2026_workshop.Connection.{Connection, Arrival, received, read_frame}
use tokioconf_2026_workshop.Connection.Read.{read_frame-Delivers, nothing_left}
use tokioconf_2026_workshop.Connection.Write.{write_frame-encode, IsSendable, AreLiteral}
use tokioconf_2026_workshop.Db.{Broadcast, State, Shared}
use tokioconf_2026_workshop.Frame.{Frame, array, size}
use tokioconf_2026_workshop.Frame.Display.{to_error}
use tokioconf_2026_workshop.Frame.Wire.{encode}
use tokioconf_2026_workshop.Server.Session.Store.{live}
use tokioconf_2026_workshop.Std.Platform.{Platform}
use tokioconf_2026_workshop.Std.StreamMap.{StreamMap, has}
use tokioconf_2026_workshop.Command.Subscribe.Confirmed.{
  confirmation, Confirms, subscribe_each-Subscribes,
}

confirms-confirmation : (k : Bytes) (count : ℕ) → confirms k (confirmation k count) ≡ true
unfolding confirms same
confirms-confirmation k count = rw (same_refl k) refl

module _ (pf : Platform) where
  await_confirmations-confirms :
      (k : Bytes) (ks : List Bytes) (f : Frame) (c c' : Connection) (later later' : List Arrival)
      → read_response pf c later ≡ returned (ok f) c' later'
      → confirms k f ≡ true
      → await_confirmations pf (k ∷ ks) c later ≡ await_confirmations pf ks c' later'
  unfolding await_confirmations
  await_confirmations-confirms k ks f c c' later later' e h = rw e (
      ap
        (λ (b : Bool). elim b as (λ _. Call (Unit {0})) [
          | true ↦ await_confirmations pf ks c' later'
          | false ↦ returned (err (to_error f)) c' later'
        ])
        h)

  read_response-confirmation :
      (k : Bytes) (count : ℕ) (c c' : Connection) (later later' : List Arrival)
      → read_frame pf c later ≡ Connection.done (ok (some (confirmation k count), c')) later'
      → read_response pf c later ≡ returned (ok (confirmation k count)) c' later'
  unfolding read_response
  read_response-confirmation k count c c' later later' e = rw e refl

  -- The confirmations of `ks` were read.
  Awaits : List Bytes → Connection → List Bytes → Bytes → Type 0
  Awaits ks c chunks more =
      (left : Bytes) × (later : List Bytes) × (await_confirmations pf ks c (map received chunks)
        ≡ returned (ok tt) (record { stream = c.stream; buffer = left }) (map received later))
      × (left ++ flatten later ≡ more)
      × All (λ s. 0 < length s) later

  then-Awaits :
      (k : Bytes) (count : ℕ) (ks : List Bytes) (c : Connection) (chunks chunks' : List Bytes)
      (left more : Bytes)
      → read_frame pf c (map received chunks)
        ≡ Connection.done
            (ok (some (confirmation k count), record { stream = c.stream; buffer = left }))
            (map received chunks')
      → Awaits ks (record { stream = c.stream; buffer = left }) chunks' more
      → Awaits (k ∷ ks) c chunks more
  unfolding Awaits
  then-Awaits k count ks c chunks chunks' left more found (left', later, ran, rest, full) =
      let responded = read_response-confirmation k count c _ (map received chunks) _ found in
      (
        left',
        later,
        await_confirmations-confirms k ks (confirmation k count) c _ (map received chunks) _
              responded (confirms-confirmation k count)
            ∙ ran,
        rest,
        full,
      )

  await-Confirms :
      (ks : List Bytes) (bytes : Bytes) (c : Connection) (chunks : List Bytes) (more : Bytes)
      → All IsName ks
      → Confirms ks bytes
      → All (λ s. 0 < length s) chunks
      → c.buffer ++ flatten chunks ≡ bytes ++ more
      → Awaits ks c chunks more
  unfolding Awaits await_confirmations
  await-Confirms [] bytes c chunks more names none_left full e =
      (c.buffer, chunks, refl, e ∙ ap (λ b. b ++ more) none_left, full)
  await-Confirms (k ∷ ks) bytes c chunks more (name, names) (count, rest, fits, split, confirmed)
        full e =
      let (left, later, found, remains, full') =
        read_frame-Delivers pf (confirmation k count) chunks c (rest ++ more)
          (unfold size in omega arith, (omega arith, (name, (fits, tt)))) full
          (e
            ∙ ap (λ b. b ++ more) split
            ∙ append_assoc (encode (confirmation k count)) rest more) in
      then-Awaits k count ks c chunks later left more found (
        await-Confirms ks rest (record { stream = c.stream; buffer = left }) later more names
          confirmed full' remains)

-- The request that names the channels.
abbrev pub subscribe_request : List Bytes → Frame
subscribe_request ks = array (bulks (codes "subscribe" ∷ ks))

names_literal : (ks : List Bytes) → All IsName ks → AreLiteral (bulks ks)
unfolding bulks
names_literal [] h = tt
names_literal (k ∷ ks) (h, hs) = (omega arith, names_literal ks hs)

size-bulks : (ks : List Bytes) → size (bulks ks) ≡ length ks
unfolding bulks size
size-bulks [] = refl
size-bulks (k ∷ ks) = ground (arith, size-bulks ks)

write_subscribe_request :
    (ks : List Bytes) (stream : Bytes) (later : List Arrival)
    → All IsName ks
    → length ks + 1 < 2 ^ 64
    → write_request (into_frame (subscribe ks)) (idle stream) later
      ≡ returned (ok tt) (idle (stream ++ encode (subscribe_request ks))) later
unfolding write_request into_frame
write_subscribe_request ks stream later names few =
    let sendable : IsSendable (subscribe_request ks) = (
      omega (arith, size-bulks (codes "subscribe" ∷ ks)),
      names_literal (codes "subscribe" ∷ ks) (omega arith, names),
    ) in
    rw
      (
        push_each-bulks (codes "subscribe" ∷ ks),
        write_frame-encode (subscribe_request ks) (idle stream) sendable,
      )
      refl

module _ (pf : Platform) (bc : Broadcast) (sm : StreamMap bc.Receiver) where
  open sm use {Streams, empty, keys}

  -- A client subscribes to fewer than 2 ^ 64 - 1 channels, with names of a length that fits, and the
  -- server handles the request with a database whose lock is not poisoned. If the network brings the
  -- client what the server wrote, cut anywhere: the call succeeds with the channels, and the server's
  -- subscriptions are to these channels and no others.
  pub client_subscribe-subscribe_each :
      (ks : List Bytes) (st : State bc.Sender) (subs : Streams) (dst dst' : Connection)
      (s : Shared bc.Sender) (stream : Bytes) (back : List Bytes)
      → All IsName ks
      → length ks + 1 < 2 ^ 64
      → All (λ b. 0 < length b) back
      → subscribe_each pf bc sm ks empty dst (live st) ≡ (ok (subs, dst'), s)
      → dst'.stream ≡ dst.stream ++ flatten back
      → (client_subscribe pf ks (idle stream) (map received back)
          ≡ returned (ok ks) (idle (stream ++ encode (subscribe_request ks))) [])
        × ((j : Bytes) → has j (keys subs) ≡ has j ks)
  unfolding client_subscribe Awaits
  client_subscribe-subscribe_each ks st subs dst dst' s stream back names few full handled brings =
      let v =
        subscribe_each-Subscribes pf bc sm ks empty dst st names (ground (arith, sm.keys-empty)) in
      let outcome = sym handled ∙ v.ran in
      let wrote : dst' ≡ sent v.bytes dst = cc in
      let same_subs : subs ≡ v.streams = cc in
      let bytes : flatten back ≡ v.bytes =
        append_cancel_left dst.stream _ _ (sym brings ∙ ap (λ (c : Connection). c.stream) wrote) in
      let read_all =
        await-Confirms pf ks v.bytes (idle (stream ++ encode (subscribe_request ks))) back [] names
          v.confirmed full (bytes ∙ sym (append-nil v.bytes)) in
      let none_before = λ (j : Bytes). ap (has j) sm.keys-empty in
      (
        finish read_all,
        λ j. ap (λ m. has j (keys m)) same_subs ∙ v.has_keys j ∙ ground (arith, none_before j),
      )
    where
      finish :
          Awaits pf ks (idle (stream ++ encode (subscribe_request ks))) back []
          → client_subscribe pf ks (idle stream) (map received back)
            ≡ returned (ok ks) (idle (stream ++ encode (subscribe_request ks))) []
      finish (left, later, ran, rest, full') =
          let (no_left, no_later) = nothing_left left later rest full' in
          rw
            (
              client_subscribe,
              write_subscribe_request ks stream (map received back) names few,
              ran,
              no_left,
              no_later,
            )
            refl
