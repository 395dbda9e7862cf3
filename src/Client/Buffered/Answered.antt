-- ===== src/Client/Buffered/Answered.antt =====
-- The buffered client against the server: each caller gets what the map says at its command's turn.
use tokioconf_2026_workshop.Base.{
  ℕ, ◌<◌, ◌≡◌, sym, ap, ◌∙◌, List, [], ◌∷◌, ◌++◌, map, append-nil, append_assoc, arith, Bytes, ok,
  length, All,
}
use mathlib.Core.List.{flatten, append_cancel_left}
use tokioconf_2026_workshop.Client.{idle, returned}
use tokioconf_2026_workshop.Client.Buffered.{Response, run, respond, Ran}
use tokioconf_2026_workshop.Client.Buffered.Served.{
  wire_command, Order, IsOrder, messages, requests, IsShort, value_at, outcomes, order-IsShort,
  forward-answered,
}
use tokioconf_2026_workshop.Command.{into_frame}
use tokioconf_2026_workshop.Connection.{Connection, received}
use tokioconf_2026_workshop.Connection.Read.{nothing_left}
use tokioconf_2026_workshop.Db.{Broadcast, State}
use tokioconf_2026_workshop.Frame.Wire.{encode}
use tokioconf_2026_workshop.Server.Session
use tokioconf_2026_workshop.Server.Session.Pipeline.{
  IsRequest, wires, answers, reads, at_work, run-answers,
}
use tokioconf_2026_workshop.Server.Session.Store.{Store, answer, view, IsBounded}
use tokioconf_2026_workshop.Std.Platform.{Platform}
use tokioconf_2026_workshop.Std.StreamMap.{StreamMap}

module _ (pf : Platform) where
  -- The rest of a run, behind one response.
  abbrev before : ℕ × Response → Ran → Ran
  before r (rs, end) = (r ∷ rs, end)

  run-outcomes :
      (max : ℕ) (os : List Order) (c : Connection) (chunks : List Bytes) (st : Store)
      → All (IsOrder max) os
      → IsShort st
      → All (λ s. 0 < length s) chunks
      → c.buffer ++ flatten chunks ≡ answers (requests os) st
      → run pf (messages os) c (map received chunks)
        ≡ (outcomes os st, returned (ok tt) (idle (c.stream ++ wires (requests os))) [])
  unfolding run respond
  run-outcomes max [] c chunks st h short full e =
      let (no_bytes, no_chunks) = nothing_left c.buffer chunks e full in
      rw (no_chunks, append-nil c.stream)
        (ap (λ b. ([], returned (ok tt) (record { stream = c.stream; buffer = b }) [])) no_bytes)
  run-outcomes max (o ∷ os) c chunks st (h, hs) short full e =
      let f = o.request.frame in
      let (left, later, found, rest, full') =
        forward-answered pf o.message.command f c chunks
          (answers (requests os) (answer o.request.command st).1) st
          (ap into_frame (sym h.forwarded) ∙ h.request.built) h.request.carried short full
          (e
            ∙ ap
                (λ k.
                  encode (answer k st).0 ++ answers (requests os) (answer o.request.command st).1)
                h.forwarded) in
      let ends =
        run-outcomes max os (record { stream = c.stream ++ encode f; buffer = left }) later
          (answer (wire_command o.message.command) st).1 hs (order-IsShort max o st h short) full'
          (rest ∙ ap (λ k. answers (requests os) (answer k st).1) h.forwarded) in
      rw found (
        ap (before (o.message.tx, ok (value_at o.message.command st))) ends
        ∙ ap
            (λ b. (
              (o.message.tx, ok (value_at o.message.command st))
                  ∷ outcomes os (answer (wire_command o.message.command) st).1,
              returned (ok tt) (idle b) [],
            ))
            (append_assoc c.stream (encode f) (wires (requests os))))

requests-IsRequest :
    (max : ℕ) (os : List Order) → All (IsOrder max) os → All (IsRequest max) (requests os)
requests-IsRequest max [] h = tt
requests-IsRequest max (o ∷ os) (h, hs) = (h.request, requests-IsRequest max os hs)

module _ (pf : Platform) (max : ℕ) (bc : Broadcast) (sm : StreamMap bc.Receiver) where
  -- Several tasks have sent commands to the task of the buffered client, on an idle connection. If
  -- the network brings the server the bytes that the client writes, and the client the bytes that the
  -- server writes for them, both cut anywhere, and no other connection and no purge comes between,
  -- then each caller receives, in the order of the channel, what the map behind the database says
  -- when it is the turn of its command: the value of the key for a `get`, nothing for a `set`.
  pub run-answered :
      (os : List Order) (client_stream server_stream : Bytes) (out back : List Bytes)
      (st : State bc.Sender)
      → All (IsOrder max) os
      → IsShort (view st)
      → All (λ s. 0 < length s) out
      → All (λ s. 0 < length s) back
      → flatten out ≡ wires (requests os)
      → (Session.run pf max bc sm
          (reads (requests os))
          (at_work pf max bc sm (idle server_stream) out st)).connection.stream
        ≡ server_stream ++ flatten back
      → run pf (messages os) (idle client_stream) (map received back)
        ≡ (outcomes os (view st), returned (ok tt) (idle (client_stream ++ flatten out)) [])
  run-answered os client_stream server_stream out back st hs short full_out full_back carried
        written =
      let bounded : IsBounded (view st) = λ key value e. omega (arith, short key value e) in
      let (left, later, st', ran, rest, moved) =
        run-answers pf max bc sm (requests os) (idle server_stream) out st []
          (requests-IsRequest max os hs) bounded full_out
          (carried ∙ sym (append-nil (wires (requests os)))) in
      let back_is : flatten back ≡ answers (requests os) (view st) =
        append_cancel_left server_stream _ _ (sym written ∙ ap (λ x. x.connection.stream) ran) in
      run-outcomes pf max os (idle client_stream) back (view st) hs short full_back back_is
      ∙ ap (λ b. (outcomes os (view st), returned (ok tt) (idle (client_stream ++ b)) []))
          (sym carried)
