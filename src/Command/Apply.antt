-- ===== src/Command/Apply.antt =====
-- mini-redis/src/cmd/: what the server does for a command, and the response that it writes.
-- `Subscribe`, which keeps the connection, is not here.
use tokioconf_2026_workshop.Base.{ℕ, Option, none, some, ◌++◌, Bytes, codes, Outcome, panic}
use tokioconf_2026_workshop.Connection.{Connection, write_frame}
use tokioconf_2026_workshop.Db
use tokioconf_2026_workshop.Db.{Broadcast, Shared}
use tokioconf_2026_workshop.Frame.{Frame, simple, error, integer, bulk, null, Message}

-- The connection after the response, and the database.
abbrev pub Applied : Type 0 → Type 0
Applied S = Outcome Message Connection × Shared S

-- `dst.write_frame(&response).await?` behind a call of the database.
unfoldable pub respond : {S A : Type 0} → (A → Frame) → Connection → Option A × Shared S → Applied S
respond response dst (none, s) = (panic, s)
respond response dst (some a, s) = (write_frame (response a) dst, s)

unfoldable pub value_frame : Option Bytes → Frame
value_frame (some value) = bulk value
value_frame none = null

module _ {S : Type 0} where
  unfoldable pub apply_get : Bytes → Connection → Shared S → Applied S
  unfolding respond value_frame
  apply_get key dst s = respond value_frame dst (Db.get key s)

  unfoldable pub apply_set : ℕ → ℕ → Bytes → Bytes → Option ℕ → Connection → Shared S → Applied S
  unfolding respond
  apply_set max now key value expire dst s =
      respond (λ _. simple (codes "OK")) dst (Db.set max now key value expire s)

unfoldable pub apply_publish :
    (bc : Broadcast) → Bytes → Bytes → Connection → Shared bc.Sender → Applied bc.Sender
unfolding respond
apply_publish bc channel message dst s = respond integer dst (Db.publish bc channel message s)

unfoldable pong : Option Bytes → Frame
pong none = simple (codes "PONG")
pong (some msg) = bulk msg

unfoldable pub apply_ping : Option Bytes → Connection → Outcome Message Connection
unfolding pong
apply_ping msg dst = write_frame (pong msg) dst

abbrev pub unknown_start : Bytes
unknown_start = codes "ERR unknown command '"

unfoldable pub apply_unknown : Bytes → Connection → Outcome Message Connection
apply_unknown name dst = write_frame (error (unknown_start ++ (name ++ codes "'"))) dst
