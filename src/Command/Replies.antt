-- ===== src/Command/Replies.antt =====
-- What a client finds on the stream after its commands.
use tokioconf_2026_workshop.Base.{
  ℕ, ◌+◌, ◌^◌, ◌<◌, ◌≡◌, refl, Bool, Option, some, ◌++◌, append_assoc, Bytes, codes, ok, length,
  same, same_refl, ◌∙◌, if◌then◌else◌, ap,
}
use tokioconf_2026_workshop.Command.Apply.{
  apply_get, apply_set, apply_unknown, respond, value_frame, unknown_start,
}
use tokioconf_2026_workshop.Connection.{Connection}
use tokioconf_2026_workshop.Connection.Write.{write_frame-encode, IsSendable}
use tokioconf_2026_workshop.Db
use tokioconf_2026_workshop.Db.{Shared}
use tokioconf_2026_workshop.Db.Set.{get-set}
use tokioconf_2026_workshop.Frame.{Frame, simple, error, bulk}
use tokioconf_2026_workshop.Frame.Complete.{decode-encode}
use tokioconf_2026_workshop.Frame.Decode.{decode}
use tokioconf_2026_workshop.Frame.Reads.{cursor}
use tokioconf_2026_workshop.Frame.Wire.{crlf, encode, IsCarried}
use tokioconf_2026_workshop.Std.Platform.{Platform}

-- A connection with more bytes sent.
abbrev pub sent : Bytes → Connection → Connection
sent bytes dst = record { stream = dst.stream ++ bytes; buffer = dst.buffer }

own_key :
    (key value : Bytes) (o : Option (Option Bytes))
    → (if same key key then some (some value) else o) ≡ some (some value)
own_key key value o = rw (same_refl key) refl

module _ {S : Type 0} where
  pub respond-encode :
      {A : Type 0} (response : A → Frame) (a : A) (dst : Connection) (found : Option A × Shared S)
      → found.0 ≡ some a
      → IsSendable (response a)
      → respond response dst found ≡ (ok (sent (encode (response a)) dst), found.1)
  unfolding respond
  respond-encode response a dst (o, s) e h = rw (e, write_frame-encode (response a) dst h)

  apply_set-ok :
      (max now : ℕ) (key value : Bytes) (expire : Option ℕ) (dst : Connection) (s : Shared S)
      (notified : Bool)
      → (Db.set max now key value expire s).0 ≡ some notified
      → apply_set max now key value expire dst s
        ≡ (ok (sent (encode (simple (codes "OK"))) dst), (Db.set max now key value expire s).1)
  unfolding apply_set
  apply_set-ok max now key value expire dst s notified e =
      respond-encode _ notified dst (Db.set max now key value expire s) e tt

  -- A `SET` that does not panic answers `OK`, and a `GET` of the same key that follows, on any
  -- connection, answers the value as a bulk string, if its length is below 2 ^ 64. Both answers go
  -- behind what is on the stream, and leave the read buffers alone.
  pub apply_get-apply_set :
      (max now : ℕ) (key value : Bytes) (expire : Option ℕ) (dst other : Connection) (s : Shared S)
      (notified : Bool)
      → (Db.set max now key value expire s).0 ≡ some notified
      → length value < 2 ^ 64
      → ((apply_set max now key value expire dst s).0
          ≡ ok (sent (encode (simple (codes "OK"))) dst))
        × ((apply_get key other (apply_set max now key value expire dst s).1).0
            ≡ ok (sent (encode (bulk value)) other))
  unfolding apply_get value_frame
  apply_get-apply_set max now key value expire dst other s notified e h =
      let set_ok = apply_set-ok max now key value expire dst s notified e in
      let found : (Db.get key (Db.set max now key value expire s).1).0 ≡ some (some value) =
        get-set max now key value key expire s notified e ∙ own_key key value _ in
      (
        ap (λ r. r.0) set_ok,
        rw (
          set_ok,
          respond-encode value_frame (some value) other
              (Db.get key (Db.set max now key value expire s).1) found h,
        ),
      )

-- An error frame whose text has a line break is an error frame and what follows it.
encode-error :
    (a b c : Bytes)
    → encode (error (a ++ (b ++ (crlf ++ c)))) ≡ encode (error (a ++ b)) ++ (c ++ crlf)
unfolding encode
encode-error a b c = simp append_assoc

-- The name of an unknown command goes into the error frame as it is. If the name has a line break,
-- a client that parses what the server wrote finds an error that ends there, and what follows the
-- break is left in front of the next response. The text up to the break is UTF-8 with no break.
pub apply_unknown-splits :
    (pf : Platform) (before after : Bytes) (dst : Connection) (fuel : ℕ)
    → let shown = error (unknown_start ++ before) in
      let left = after ++ (codes "'" ++ crlf) in
      IsCarried shown
      → length (encode shown) < fuel
      → (apply_unknown (before ++ (crlf ++ after)) dst ≡ ok (sent (encode shown ++ left) dst))
        × (decode pf fuel (cursor 0 (encode shown ++ left))
            ≡ ok (shown, cursor (0 + length (encode shown)) left))
unfolding apply_unknown
apply_unknown-splits pf before after dst fuel h short = (
  (rw (
    append_assoc before (crlf ++ after) (codes "'"),
    write_frame-encode (error (unknown_start ++ (before ++ (crlf ++ (after ++ codes "'"))))) dst tt,
    encode-error unknown_start before (after ++ codes "'"),
    append_assoc after (codes "'") crlf,
  )),
  (decode-encode pf (error (unknown_start ++ before)) fuel (after ++ (codes "'" ++ crlf)) h
      short).1,
)
