-- ===== src/Client/EndToEnd.antt =====
-- The client against the server: what one writes is what the other reads, in both directions.
use tokioconf_2026_workshop.Base.{
  ℕ, ◌+◌, ◌^◌, ◌<◌, ◌≡◌, refl, sym, ap, ◌∙◌, subst, Option, none, some, List, [], ◌∷◌, ◌++◌, map,
  append-nil, arith, Bytes, codes, ok, length, All, Outcome, same, same_refl, inl, inr,
  Option-cases,
}
use mathlib.Core.List.{flatten, append_cancel_left}
use tokioconf_2026_workshop.Client.{
  idle, returned, exchange, client_get, client_set, get_result, set_result, read_response,
}
use tokioconf_2026_workshop.Command.{Command, get, set, into_frame, parts}
use tokioconf_2026_workshop.Command.RoundTrip.{bulks, push_each-bulks}
use tokioconf_2026_workshop.Command.Apply.{value_frame}
use tokioconf_2026_workshop.Connection
use tokioconf_2026_workshop.Connection.{Connection, received, read_frame, write_frame}
use tokioconf_2026_workshop.Connection.Read.{read_frame-Delivers, nothing_left}
use tokioconf_2026_workshop.Connection.Write.{write_frame-encode, IsSendable, AreLiteral}
use tokioconf_2026_workshop.Db.{Broadcast, State}
use tokioconf_2026_workshop.Frame.{Frame, simple, error, integer, bulk, null, array, Message}
use tokioconf_2026_workshop.Frame.Wire.{encode, IsCarried, AreCarried}
use tokioconf_2026_workshop.Server.Session.{Session, read, step}
use tokioconf_2026_workshop.Server.Session.Pipeline.{
  Request, IsRequest, at_work, put-IsBounded, Steps, step-Steps,
}
use tokioconf_2026_workshop.Server.Session.Store.{Store, answer, put, view, IsBounded}
use tokioconf_2026_workshop.Std.Platform.{Platform}
use tokioconf_2026_workshop.Std.Utf8.{is_utf8}
use tokioconf_2026_workshop.Std.StreamMap.{StreamMap}

-- A frame that arrives, and is no error.
abbrev pub IsAnswer : Frame → Type 0
IsAnswer (error m) = ⊥
IsAnswer (simple s) = IsCarried (simple s)
IsAnswer (integer n) = IsCarried (integer n)
IsAnswer (bulk s) = IsCarried (bulk s)
IsAnswer null = Unit
IsAnswer (array fs) = IsCarried (array fs)

IsAnswer-IsCarried : (f : Frame) → IsAnswer f → IsCarried f
IsAnswer-IsCarried (simple s) h = h
IsAnswer-IsCarried (error s) h = absurd h
IsAnswer-IsCarried (integer s) h = h
IsAnswer-IsCarried (bulk s) h = h
IsAnswer-IsCarried null h = h
IsAnswer-IsCarried (array fs) h = h

module _ (pf : Platform) where
  read_response-read_frame :
      (f : Frame) (c c' : Connection) (chunks later : List Bytes)
      → IsAnswer f
      → read_frame pf c (map received chunks)
        ≡ Connection.done (ok (some f, c')) (map received later)
      → read_response pf c (map received chunks) ≡ returned (ok f) c' (map received later)
  unfolding read_response
  read_response-read_frame (simple s) c c' chunks later h e = rw e refl
  read_response-read_frame (error s) c c' chunks later h e = absurd h
  read_response-read_frame (integer s) c c' chunks later h e = rw e refl
  read_response-read_frame (bulk s) c c' chunks later h e = rw e refl
  read_response-read_frame null c c' chunks later h e = rw e refl
  read_response-read_frame (array fs) c c' chunks later h e = rw e refl

  -- The answer arrives in chunks behind the request.
  pub exchange-returned :
      {A : Type 0} (cmd : Command) (result : Frame → Outcome Message A) (f answer : Frame)
      (c : Connection) (chunks : List Bytes) (more : Bytes)
      → into_frame cmd ≡ some (ok f)
      → IsSendable f
      → IsAnswer answer
      → All (λ s. 0 < length s) chunks
      → c.buffer ++ flatten chunks ≡ encode answer ++ more
      → (left : Bytes) × (later : List Bytes) × (exchange pf cmd result c (map received chunks)
          ≡ returned
              (result answer)
              (record { stream = c.stream ++ encode f; buffer = left })
              (map received later))
        × (left ++ flatten later ≡ more)
        × All (λ s. 0 < length s) later
  unfolding exchange
  exchange-returned cmd result f answer c chunks more built sendable h full e =
      let c' : Connection = record { stream = c.stream ++ encode f; buffer = c.buffer } in
      let (left, later, found, rest, full_later) =
        read_frame-Delivers pf answer chunks c' more (IsAnswer-IsCarried answer h) full e in
      (
        left,
        later,
        rw (
          built,
          write_frame-encode f c sendable,
          read_response-read_frame answer c' _ chunks later h found,
        ),
        rest,
        full_later,
      )

  -- All that came was the answer.
  exchange-exact :
      {A : Type 0} (cmd : Command) (result : Frame → Outcome Message A) (f answer : Frame)
      (stream : Bytes) (chunks : List Bytes)
      → into_frame cmd ≡ some (ok f)
      → IsSendable f
      → IsAnswer answer
      → All (λ s. 0 < length s) chunks
      → flatten chunks ≡ encode answer
      → exchange pf cmd result (idle stream) (map received chunks)
        ≡ returned (result answer) (idle (stream ++ encode f)) []
  exchange-exact cmd result f answer stream chunks built sendable h full e =
      let (left, later, found, rest, full') =
        exchange-returned cmd result f answer (idle stream) chunks [] built sendable h full
          (e ∙ sym (append-nil (encode answer))) in
      finish left later found (nothing_left left later rest full')
    where
      finish :
          (left : Bytes) (later : List Bytes)
          → exchange pf cmd result (idle stream) (map received chunks)
            ≡ returned
                (result answer)
                (record { stream = stream ++ encode f; buffer = left })
                (map received later)
          → (left ≡ []) × (later ≡ [])
          → exchange pf cmd result (idle stream) (map received chunks)
            ≡ returned (result answer) (idle (stream ++ encode f)) []
      finish left later found (none_left, none_later) = rw (none_left, none_later) at found

literals : (ss : List Bytes) → AreCarried (bulks ss) → AreLiteral (bulks ss)
unfolding bulks
literals [] h = tt
literals (s ∷ ss) (h, hs) = (omega arith, literals ss hs)

-- What `into_frame` builds can be sent, if it can be read.
pub into_frame-IsSendable :
    (c : Command) (f : Frame) → into_frame c ≡ some (ok f) → IsCarried f → IsSendable f
unfolding into_frame
into_frame-IsSendable c f built h = elim (Option-cases (parts c)) [
  | inl e ↦ absurd (cc (rw e at built))
  | inr (ss, e) ↦ by_words ss (rw (e, push_each-bulks ss) at built)
]
  where
    by_words :
        (ss : List Bytes)
        → ◌≡◌ {A = Option (Outcome Message Frame)} (some (ok (array (bulks ss)))) (some (ok f))
        → IsSendable f
    by_words ss e =
        let same_frame : array (bulks ss) ≡ f = cc in
        let (count, hs) = subst IsCarried (sym same_frame) h in
        subst IsSendable same_frame (count, literals ss hs)

module _ (pf : Platform) (max : ℕ) (bc : Broadcast) (sm : StreamMap bc.Receiver) where
  -- A call over its own connection: what the client has sent before, what the server has sent before,
  -- and the chunks in which the request and the answer arrive.
  pub record Trip : Type 0 where
    pub request : Request
    pub client_stream : Bytes
    pub server_stream : Bytes
    pub out : List Bytes
    pub back : List Bytes

  -- The server's end, when it has handled the request.
  abbrev pub handled : Trip → State bc.Sender → Session sm.Streams bc.Sender
  handled t st =
      step pf max bc sm (read t.request.now) (at_work pf max bc sm (idle t.server_stream) t.out st)

  -- The network brings the server what the client wrote, and the client what the server wrote.
  pub record IsTrip (st : State bc.Sender) (t : Trip) : Type 0 where
    pub request : IsRequest max t.request
    pub bytes_out : All (λ s. 0 < length s) t.out
    pub bytes_back : All (λ s. 0 < length s) t.back
    pub carries_out : flatten t.out ≡ encode t.request.frame
    pub carries_back : (handled t st).connection.stream ≡ t.server_stream ++ flatten t.back

  -- The client has its answer, and the map behind the server has moved on.
  record Completes (st : State bc.Sender) (t : Trip) : Type 1 where
    pub returns :
        {A : Type 0} (result : Frame → Outcome Message A)
        → exchange pf t.request.command result (idle t.client_stream) (map received t.back)
          ≡ returned
              (result (answer t.request.command (view st)).0)
              (idle (t.client_stream ++ flatten t.out))
              []
    pub moved : view (handled t st).shared.state ≡ (answer t.request.command (view st)).1

  trip-Completes :
      (st : State bc.Sender) (t : Trip)
      → IsTrip st t
      → IsBounded (view st)
      → IsAnswer (answer t.request.command (view st)).0
      → Completes st t
  trip-Completes st t h bounded answers = by_step (
      step-Steps pf max bc sm t.request (idle t.server_stream) t.out st [] h.request bounded
        h.bytes_out (h.carries_out ∙ sym (append-nil _)))
    where
      by_step : Steps pf max bc sm t.request (idle t.server_stream) t.out st [] → Completes st t
      by_step (left, later, st', stepped, rest, full', moved) =
          let back : flatten t.back ≡ encode (answer t.request.command (view st)).0 =
            append_cancel_left t.server_stream _ _
              (sym h.carries_back ∙ ap (λ y. y.connection.stream) stepped) in
          record {
            returns = λ result.
                exchange-exact pf t.request.command result t.request.frame _ t.client_stream t.back
                  h.request.built
                  (into_frame-IsSendable t.request.command t.request.frame h.request.built
                    h.request.carried)
                  answers h.bytes_back back
                ∙ ap
                    (λ b.
                      returned (result (answer t.request.command (view st)).0)
                        (idle (t.client_stream ++ b)) [])
                    (sym h.carries_out);
            moved = ap (λ y. view y.shared.state) stepped ∙ moved;
          }

  put_own : (key value : Bytes) (m : Store) → put key value m key ≡ some value
  put_own key value m = rw (same_refl key) refl

  ok-IsAnswer : IsAnswer (simple (codes "OK"))
  unfolding is_utf8
  ok-IsAnswer = ((λ (e, e'). absurd (omega arith), tt), refl)

  -- A call, by the command that it stands for and the result that it has.
  call :
      {A : Type 0} {c : Command} (t : Trip)
      → t.request.command ≡ c
      → (result : Frame → Outcome Message A) (r : Outcome Message A) {r' : Outcome Message A}
      → exchange pf t.request.command result (idle t.client_stream) (map received t.back)
        ≡ returned r (idle (t.client_stream ++ flatten t.out)) []
      → r ≡ r'
      → exchange pf c result (idle t.client_stream) (map received t.back)
        ≡ returned r' (idle (t.client_stream ++ flatten t.out)) []
  call t e result r returns e' =
      ap (λ c. exchange pf c result (idle t.client_stream) (map received t.back)) (sym e)
      ∙ returns
      ∙ ap (λ q. returned q (idle (t.client_stream ++ flatten t.out)) []) e'

  -- One client sets a key, and then a client on the same or another connection gets it. If the
  -- network brings each server task the bytes of the request, and each client the bytes that the
  -- server task has written, both cut anywhere, then the first call returns success and the second the
  -- value. The connections are idle before, the values in the database and the new one can be sent.
  pub client_get-client_set :
      (key value : Bytes) (st : State bc.Sender) (t₁ t₂ : Trip)
      → t₁.request.command ≡ set key value none
      → t₂.request.command ≡ get key
      → IsBounded (view st)
      → length value + 2 < 2 ^ 64
      → IsTrip st t₁
      → IsTrip (handled t₁ st).shared.state t₂
      → (client_set pf key value (idle t₁.client_stream) (map received t₁.back)
          ≡ returned (ok tt) (idle (t₁.client_stream ++ flatten t₁.out)) [])
        × (client_get pf key (idle t₂.client_stream) (map received t₂.back)
            ≡ returned (ok (some value)) (idle (t₂.client_stream ++ flatten t₂.out)) [])
  unfolding client_set client_get set_result get_result value_frame same
  client_get-client_set key value st t₁ t₂ e₁ e₂ bounded short h₁ h₂ =
      let done₁ =
        trip-Completes st t₁ h₁ bounded
          (subst (λ c. IsAnswer (answer c (view st)).0) (sym e₁) ok-IsAnswer) in
      let st' = (handled t₁ st).shared.state in
      let now_put : view st' ≡ put key value (view st) =
        done₁.moved ∙ ap (λ c. (answer c (view st)).1) e₁ in
      let found : view st' key ≡ some value =
        ap (λ m. m key) now_put ∙ put_own key value (view st) in
      let bounded' : IsBounded (view st') =
        subst IsBounded (sym now_put) (put-IsBounded key value (view st) (omega arith) bounded) in
      let answered : (answer t₂.request.command (view st')).0 ≡ bulk value =
        ap (λ c. (answer c (view st')).0) e₂ ∙ ap value_frame found in
      let done₂ = trip-Completes st' t₂ h₂ bounded' (subst IsAnswer (sym answered) short) in
      (
        call t₁ e₁ set_result _ (done₁.returns set_result)
            (ap (λ c. set_result (answer c (view st)).0) e₁),
        call t₂ e₂ get_result _ (done₂.returns get_result) (ap get_result answered),
      )
