-- ===== src/Client/Buffered/Served.antt =====
-- One command of the buffered client, whose answer is what the map says.
use tokioconf_2026_workshop.Base.{
  ℕ, ◌+◌, ◌^◌, ◌<◌, ◌≡◌, refl, Option, none, some, List, [], ◌∷◌, ◌++◌, map, arith, Bytes, codes,
  ok, length, All, same, inl, inr, Bool-cases,
}
use mathlib.Core.List.{flatten}
use tokioconf_2026_workshop.Client.{returned, client_get, client_set, get_result, set_result}
use tokioconf_2026_workshop.Client.Buffered.{Command, get, set, Message, Response, forward}
use tokioconf_2026_workshop.Client.EndToEnd.{IsAnswer, exchange-returned, into_frame-IsSendable}
use tokioconf_2026_workshop.Command.{
  Command as WireCommand, get as wire_get, set as wire_set, into_frame,
}
use tokioconf_2026_workshop.Command.Apply.{value_frame}
use tokioconf_2026_workshop.Connection.{Connection, received}
use tokioconf_2026_workshop.Frame.{Frame, simple}
use tokioconf_2026_workshop.Frame.Wire.{encode, IsCarried}
use tokioconf_2026_workshop.Server.Session.Pipeline.{Request, IsRequest}
use tokioconf_2026_workshop.Server.Session.Store.{Store, answer, put}
use tokioconf_2026_workshop.Std.Platform.{Platform}
use tokioconf_2026_workshop.Std.Utf8.{is_utf8}

-- The command of the protocol.
abbrev pub wire_command : Command → WireCommand
wire_command (get key) = wire_get key
wire_command (set key value) = wire_set key value none

-- A message of the channel, and the request that it becomes.
pub record Order : Type 0 where
  pub message : Message
  pub request : Request

abbrev pub messages : List Order → List Message
messages [] = []
messages (o ∷ os) = o.message ∷ messages os

abbrev pub requests : List Order → List Request
requests [] = []
requests (o ∷ os) = o.request ∷ requests os

-- The client reads a value of this length.
abbrev pub IsShort : Store → Type 0
IsShort st = (key value : Bytes) → st key ≡ some value → length value + 2 < 2 ^ 64

pub record IsOrder (max : ℕ) (o : Order) : Type 0 where
  pub request : IsRequest max o.request
  pub forwarded : o.request.command ≡ wire_command o.message.command
  pub short : (key value : Bytes) → o.message.command ≡ set key value → length value + 2 < 2 ^ 64

abbrev pub value_at : Command → Store → Option Bytes
value_at (get key) st = st key
value_at (set key value) st = none

-- What the map answers, command by command.
abbrev pub outcomes : List Order → Store → List (ℕ × Response)
outcomes [] st = []
outcomes (o ∷ os) st =
    (o.message.tx, ok (value_at o.message.command st))
    ∷ outcomes os (answer (wire_command o.message.command) st).1

put-IsShort :
    (key value : Bytes) (st : Store)
    → length value + 2 < 2 ^ 64
    → IsShort st
    → IsShort (put key value st)
put-IsShort key value st h bounded j v e = elim (Bool-cases (same key j)) [
  | inl own ↦ let e' = rw own at e in rw (← some_injective e') h
  | inr another ↦ let e' = rw another at e in bounded j v e'
]
  where
    some_injective : {a b : Bytes} → some a ≡ some b → a ≡ b
    some_injective p = cc

pub order-IsShort :
    (max : ℕ) (o : Order) (st : Store)
    → IsOrder max o
    → IsShort st
    → IsShort (answer (wire_command o.message.command) st).1
order-IsShort max o st h bounded = by_command o.message.command h.short
  where
    by_command :
        (c : Command)
        → ((key value : Bytes) → c ≡ set key value → length value + 2 < 2 ^ 64)
        → IsShort (answer (wire_command c) st).1
    by_command (get key) short = bounded
    by_command (set key value) short = put-IsShort key value st (short key value refl) bounded

value_frame-IsAnswer :
    (st : Store) (key : Bytes) (o : Option Bytes)
    → IsShort st
    → st key ≡ o
    → IsAnswer (value_frame o)
unfolding value_frame
value_frame-IsAnswer st key none h e = tt
value_frame-IsAnswer st key (some value) h e = h key value e

done_IsAnswer : IsAnswer (simple (codes "OK"))
unfolding is_utf8
done_IsAnswer = ((λ (e, e'). absurd (omega arith), tt), refl)

order-IsAnswer : (c : Command) (st : Store) → IsShort st → IsAnswer (answer (wire_command c) st).0
order-IsAnswer (get key) st h = value_frame-IsAnswer st key (st key) h refl
order-IsAnswer (set key value) st h = done_IsAnswer

module _ (pf : Platform) where
  get_result-value : (o : Option Bytes) → get_result (value_frame o) ≡ ok o
  unfolding get_result value_frame
  get_result-value none = refl
  get_result-value (some value) = refl

  -- One command, whose answer has come.
  pub forward-answered :
      (c : Command) (f : Frame) (d : Connection) (chunks : List Bytes) (more : Bytes) (st : Store)
      → into_frame (wire_command c) ≡ some (ok f)
      → IsCarried f
      → IsShort st
      → All (λ s. 0 < length s) chunks
      → d.buffer ++ flatten chunks ≡ encode (answer (wire_command c) st).0 ++ more
      → (left : Bytes) × (later : List Bytes) × (forward pf c d (map received chunks)
          ≡ returned
              (ok (value_at c st))
              (record { stream = d.stream ++ encode f; buffer = left })
              (map received later))
        × (left ++ flatten later ≡ more)
        × All (λ s. 0 < length s) later
  unfolding forward client_get client_set set_result same
  forward-answered (get key) f d chunks more st built carried h full e =
      let (left, later, found, rest, full') =
        exchange-returned pf (wire_get key) get_result f (value_frame (st key)) d chunks more built
          (into_frame-IsSendable (wire_get key) f built carried) (order-IsAnswer (get key) st h)
          full e in
      (left, later, rw (found, get_result-value (st key)), rest, full')
  forward-answered (set key value) f d chunks more st built carried h full e =
      let (left, later, found, rest, full') =
        exchange-returned pf (wire_set key value none) set_result f (simple (codes "OK")) d chunks
          more built (into_frame-IsSendable (wire_set key value none) f built carried) done_IsAnswer
          full e in
      (left, later, rw found, rest, full')
