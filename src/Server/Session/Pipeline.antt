-- ===== src/Server/Session/Pipeline.antt =====
-- A connection that sends `GET`, `SET` and `PING`, as many at once as it likes and cut by the network
-- as it may be, against the map that the database stands for.
use tokioconf_2026_workshop.Base.{
  ℕ, ◌+◌, ◌^◌, ◌≤◌, ◌<◌, ◌≡◌, refl, sym, ap, ◌∙◌, subst, Bool, Option, none, some, List, [], ◌∷◌,
  ◌++◌, map, append_assoc, append-nil, Bool-cases, inl, inr, same, Bytes, codes, ok, length, All,
}
use mathlib.Core.List.{flatten}
use tokioconf_2026_workshop.Command.{
  Command, get, set, ping, publish, subscribe, unsubscribe, unknown, from_frame, into_frame,
  from_millis, as_millis,
}
use tokioconf_2026_workshop.Command.Apply.{apply_get, apply_set, apply_ping, value_frame}
use tokioconf_2026_workshop.Command.Replies.{sent, respond-encode}
use tokioconf_2026_workshop.Command.RoundTrip.{IsValid, to_wire, from_frame-into_frame}
use tokioconf_2026_workshop.Connection.{Connection, received}
use tokioconf_2026_workshop.Connection.Read.{read_frame-Delivers}
use tokioconf_2026_workshop.Connection.Write.{write_frame-encode, IsSendable}
use tokioconf_2026_workshop.Db
use tokioconf_2026_workshop.Db.{Broadcast, State, Shared, store}
use tokioconf_2026_workshop.Frame.{Frame, simple, bulk}
use tokioconf_2026_workshop.Frame.Wire.{encode, IsCarried}
use tokioconf_2026_workshop.Server.Session.{
  Session, new_shutdown, Event, read, serving, apply, serve, settle, step, run,
}
use tokioconf_2026_workshop.Server.Session.Store.{
  Store, answer, put, view, view-store, live, deadline, get_lem, set_lem, Fits, IsBounded,
}
use tokioconf_2026_workshop.Std.Platform.{Platform}
use tokioconf_2026_workshop.Std.StreamMap.{StreamMap}

-- A command, the frame that a client sends for it, and the instant at which it is handled.
pub record Request : Type 0 where
  pub now : ℕ
  pub command : Command
  pub frame : Frame

-- A command that is answered at once and leaves the subscriptions alone; its value can be sent.
abbrev pub IsSimple : ℕ → ℕ → Command → Type 0
IsSimple max now (get key) = Unit
IsSimple max now (set key value none) = length value < 2 ^ 64
IsSimple max now (set key value (some d)) =
    (length value < 2 ^ 64) × (now + from_millis (as_millis d) ≤ max)
IsSimple max now (ping none) = Unit
IsSimple max now (ping (some msg)) = length msg < 2 ^ 64
IsSimple max now (publish channel payload) = ⊥
IsSimple max now (subscribe names) = ⊥
IsSimple max now (unsubscribe names) = ⊥
IsSimple max now (unknown name) = ⊥

pub record IsRequest (max : ℕ) (r : Request) : Type 0 where
  pub built : into_frame r.command ≡ some (ok r.frame)
  pub carried : IsCarried r.frame
  pub valid : IsValid r.command
  pub prompt : IsSimple max r.now r.command

abbrev pub wires : List Request → Bytes
wires [] = []
wires (r ∷ rs) = encode r.frame ++ wires rs

-- The answers of the map, one after the other, and the map after all of them.
abbrev pub answers : List Request → Store → Bytes
answers [] st = []
answers (r ∷ rs) st = encode (answer r.command st).0 ++ answers rs (answer r.command st).1

abbrev pub after : List Request → Store → Store
after [] st = st
after (r ∷ rs) st = after rs (answer r.command st).1

abbrev pub reads : {S : Type 0} → List Request → List (Event S)
reads = map (λ r. read r.now)

pub put-IsBounded :
    (key value : Bytes) (st : Store)
    → length value < 2 ^ 64
    → IsBounded st
    → IsBounded (put key value st)
put-IsBounded key value st h bounded j v e = elim (Bool-cases (same key j)) [
  | inl own ↦ let e' = rw own at e in rw (← some_injective e') h
  | inr another ↦ let e' = rw another at e in bounded j v e'
]
  where
    some_injective : {a b : Bytes} → some a ≡ some b → a ≡ b
    some_injective p = cc

answer-IsBounded :
    (max now : ℕ) (c : Command) (st : Store)
    → IsSimple max now c
    → IsBounded st
    → IsBounded (answer c st).1
answer-IsBounded max now (get key) st h bounded = bounded
answer-IsBounded max now (set key value none) st h bounded = put-IsBounded key value st h bounded
answer-IsBounded max now (set key value (some d)) st h bounded =
    put-IsBounded key value st h.0 bounded
answer-IsBounded max now (ping none) st h bounded = bounded
answer-IsBounded max now (ping (some msg)) st h bounded = bounded
answer-IsBounded max now (publish channel payload) st h bounded = absurd h
answer-IsBounded max now (subscribe names) st h bounded = absurd h
answer-IsBounded max now (unsubscribe names) st h bounded = absurd h
answer-IsBounded max now (unknown name) st h bounded = absurd h

module _ (pf : Platform) (max : ℕ) (bc : Broadcast) (sm : StreamMap bc.Receiver) where
  -- A session in the handler's loop.
  abbrev pub at_work : Connection → List Bytes → State bc.Sender → Session sm.Streams bc.Sender
  at_work c chunks st = record {
    connection = c;
    incoming = map received chunks;
    shared = live st;
    shutdown = new_shutdown;
    mode = serving;
  }

  -- What one command does: the answer goes out, and the map moves on.
  abbrev Applies : Command → ℕ → Connection → State bc.Sender → Type 0
  Applies c now dst st =
      (st' : State bc.Sender) × (apply pf max bc sm now (to_wire c) dst (live st)
        ≡ (ok (none, sent (encode (answer c (view st)).0) dst), live st'))
      × (view st' ≡ (answer c (view st)).1)

  IsSendable-value :
      (st : Store) (key : Bytes) (o : Option Bytes)
      → IsBounded st
      → st key ≡ o
      → IsSendable (value_frame o)
  unfolding value_frame
  IsSendable-value st key none h e = tt
  IsSendable-value st key (some value) h e = h key value e

  store-Applies :
      (now : ℕ) (key value : Bytes) (expire : Option ℕ) (dst : Connection) (st : State bc.Sender)
      → Fits max now expire
      → (st' : State bc.Sender) × (apply pf max bc sm now (set key value expire) dst (live st)
          ≡ (ok (none, sent (encode (simple (codes "OK"))) dst), live st'))
        × (view st' ≡ put key value (view st))
  unfolding apply apply_set
  store-Applies now key value expire dst st fits =
      let (notify, found) = set_lem max now key value expire st fits in
      let answered =
        respond-encode (λ (b : Bool). simple (codes "OK")) notify dst
          (Db.set max now key value expire (live st)) (ap (λ r. r.0) found) tt in
      (
        store key value (deadline now expire) st,
        rw (answered, found),
        view-store key value (deadline now expire) st,
      )

  apply-Applies :
      (now : ℕ) (c : Command) (dst : Connection) (st : State bc.Sender)
      → IsBounded (view st)
      → IsSimple max now c
      → Applies c now dst st
  unfolding apply apply_get apply_ping
  apply-Applies now (get key) dst st bounded h =
      let answered =
        respond-encode value_frame (view st key) dst (Db.get key (live st))
          (ap (λ r. r.0) (get_lem key st))
          (IsSendable-value (view st) key (view st key) bounded refl) in
      (st, rw (answered, get_lem key st), refl)
  apply-Applies now (set key value none) dst st bounded h =
      store-Applies now key value none dst st tt
  apply-Applies now (set key value (some d)) dst st bounded h =
      store-Applies now key value _ dst st h.1
  apply-Applies now (ping none) dst st bounded h =
      (st, rw (write_frame-encode (simple (codes "PONG")) dst tt), refl)
  apply-Applies now (ping (some msg)) dst st bounded h =
      (st, rw (write_frame-encode (bulk msg) dst h), refl)
  apply-Applies now (publish channel payload) dst st bounded h = absurd h
  apply-Applies now (subscribe names) dst st bounded h = absurd h
  apply-Applies now (unsubscribe names) dst st bounded h = absurd h
  apply-Applies now (unknown name) dst st bounded h = absurd h

  -- The frame that arrives is read back as the command.
  from_frame-request :
      (r : Request) → IsRequest max r → from_frame pf r.frame ≡ ok (to_wire r.command)
  from_frame-request r h =
      let (f, built, read_back) = from_frame-into_frame pf r.command h.valid in cc

  -- One command more.
  abbrev pub Steps : Request → Connection → List Bytes → State bc.Sender → Bytes → Type 0
  Steps r c chunks st more =
      (left : Bytes) × (later : List Bytes) × (st' : State bc.Sender) × (step pf max bc sm
          (read r.now) (at_work c chunks st)
        ≡ at_work
            (record { stream = c.stream ++ encode (answer r.command (view st)).0; buffer = left })
            later st')
      × (left ++ flatten later ≡ more)
      × All (λ s. 0 < length s) later
      × (view st' ≡ (answer r.command (view st)).1)

  pub step-Steps :
      (r : Request) (c : Connection) (chunks : List Bytes) (st : State bc.Sender) (more : Bytes)
      → IsRequest max r
      → IsBounded (view st)
      → All (λ s. 0 < length s) chunks
      → c.buffer ++ flatten chunks ≡ encode r.frame ++ more
      → Steps r c chunks st more
  unfolding step serve settle
  step-Steps r c chunks st more h bounded full e =
      let (left, later, found, rest, full') =
        read_frame-Delivers pf r.frame chunks c more h.carried full e in
      let c' : Connection = record { stream = c.stream; buffer = left } in
      let (st', applied, moved) = apply-Applies r.now r.command c' st bounded h.prompt in
      (left, later, st', rw (found, from_frame-request r h, applied), rest, full', moved)

  -- A run over several commands.
  abbrev pub Runs : List Request → Connection → List Bytes → State bc.Sender → Bytes → Type 0
  Runs rs c chunks st more =
      (left : Bytes) × (later : List Bytes) × (st' : State bc.Sender) × (run pf max bc sm (reads rs)
          (at_work c chunks st)
        ≡ at_work (record { stream = c.stream ++ answers rs (view st); buffer = left }) later st')
      × (left ++ flatten later ≡ more)
      × (view st' ≡ after rs (view st))

  then-Runs :
      (r : Request) (rs : List Request) (c : Connection) (chunks : List Bytes)
      (st : State bc.Sender) (more left : Bytes) (later : List Bytes) (st' : State bc.Sender)
      → step pf max bc sm (read r.now) (at_work c chunks st)
        ≡ at_work
            (record { stream = c.stream ++ encode (answer r.command (view st)).0; buffer = left })
            later
            st'
      → view st' ≡ (answer r.command (view st)).1
      → Runs rs
          (record { stream = c.stream ++ encode (answer r.command (view st)).0; buffer = left })
          later
          st'
          more
      → Runs (r ∷ rs) c chunks st more
  unfolding run
  then-Runs r rs c chunks st more left later st' stepped moved
        (left', later', st'', ran, rest, ends) =
      let first = encode (answer r.command (view st)).0 in
      let streams : (c.stream ++ first) ++ answers rs (view st')
          ≡ c.stream ++ answers (r ∷ rs) (view st) =
        rw moved (append_assoc c.stream first _) in
      (
        left',
        later',
        st'',
        ap (run pf max bc sm (reads rs)) stepped
            ∙ ran
            ∙ ap (λ s. at_work (record { stream = s; buffer = left' }) later' st'') streams,
        rest,
        ends ∙ ap (after rs) moved,
      )

  -- On a connection in the handler's loop, with a database whose values are shorter than 2 ^ 64: the
  -- client has sent any number of `GET`, `SET` and `PING`, all at once or bit by bit, with values
  -- shorter than 2 ^ 64 and deadlines in range, and the network has cut the bytes anywhere. No other
  -- connection and no purge comes between. One round
  -- of the loop for each command writes exactly the answers that the map from keys to values gives,
  -- in order, leaves the database standing for the map after all of them, and leaves the bytes
  -- behind the last command to be read.
  pub run-answers :
      (rs : List Request) (c : Connection) (chunks : List Bytes) (st : State bc.Sender)
      (more : Bytes)
      → All (IsRequest max) rs
      → IsBounded (view st)
      → All (λ s. 0 < length s) chunks
      → c.buffer ++ flatten chunks ≡ wires rs ++ more
      → Runs rs c chunks st more
  unfolding run
  run-answers [] c chunks st more hs bounded full e =
      (c.buffer, chunks, st, rw (append-nil c.stream), e, refl)
  run-answers (r ∷ rs) c chunks st more (h, hs) bounded full e =
      let (left, later, st', stepped, rest, full', moved) =
        step-Steps r c chunks st (wires rs ++ more) h bounded full
          (e ∙ append_assoc (encode r.frame) (wires rs) more) in
      let bounded' : IsBounded (view st') =
        subst IsBounded (sym moved)
          (answer-IsBounded max r.now r.command (view st) h.prompt bounded) in
      then-Runs r rs c chunks st more left later st' stepped moved
        (run-answers rs _ later st' more hs bounded' full' rest)
