-- ===== src/Connection.antt =====
-- mini-redis/src/connection.rs: frames over a byte stream.
pub mod Write
pub mod Read
pub mod Overflow
pub mod Exact
use tokioconf_2026_workshop.Base.{
  ℕ, zero, suc, ◌+◌, ◌<◌, Bool, true, false, Option, none, some, List, [], ◌∷◌, ◌++◌, Bytes, codes,
  ltb, ◌==◌, if◌then◌else◌, Outcome, ok, err, panic, out_of_fuel, and_then, length, drop,
}
use tokioconf_2026_workshop.Frame.{
  Frame, Frames, simple, error, integer, bulk, null, array, nil, cons, size, Message, text, Error,
  incomplete, other,
}
use tokioconf_2026_workshop.Frame.Cursor.{Cursor}
use tokioconf_2026_workshop.Frame.Check.{check}
use tokioconf_2026_workshop.Frame.Decode.{decode}
use tokioconf_2026_workshop.Frame.Wire.{crlf}
use tokioconf_2026_workshop.Std.Decimal.{decimal}
use tokioconf_2026_workshop.Std.Platform.{Platform}

-- `stream` is what has been sent to the peer, `buffer` what was received and not yet parsed.
pub record Connection : Type 0 where
  pub stream : Bytes
  pub buffer : Bytes

unfoldable pub new : Connection
new = record { stream = []; buffer = [] }

-- An operation on the outgoing stream that succeeds or panics.
abbrev pub Writer : Type 0
Writer = Bytes → Outcome Message Bytes

infixl 1 ◌>>◌
abbrev pub ◌>>◌ : Writer → Writer → Writer
(p >> q) out = and_then (p out) q

abbrev pub write_u8 : ℕ → Writer
write_u8 b out = ok (out ++ b ∷ [])

abbrev pub write_all : Bytes → Writer
write_all s out = ok (out ++ s)

-- The digits pass through a buffer of 20 bytes.
unfoldable pub write_decimal : ℕ → Writer
write_decimal n =
    if ltb 20 (length (decimal n))
    then (λ out. err (text (codes "failed to write whole buffer")))
    else (write_all (decimal n) >> write_all crlf)

unfoldable pub write_value : Frame → Writer
unfolding write_decimal
write_value (simple s) = do write_u8 b'+'; write_all s; write_all crlf
write_value (error s) = do write_u8 b'-'; write_all s; write_all crlf
write_value (integer n) = do write_u8 b':'; write_decimal n
write_value null = write_all (codes "$-1" ++ crlf)
write_value (bulk s) = do write_u8 b'$'; write_decimal (length s); write_all s; write_all crlf
write_value (array fs) = λ out. panic

unfoldable pub write_values : Frames → Writer
unfolding write_value
write_values nil = write_all []
write_values (cons f fs) = write_value f >> write_values fs

unfoldable pub write_to : Frame → Writer
unfolding write_values
write_to (array fs) = do write_u8 b'*'; write_decimal (size fs); write_values fs
write_to f = write_value f

unfoldable pub write_frame : Frame → Connection → Outcome Message Connection
unfolding write_to
write_frame f c = and_then (write_to f c.stream) λ out. ok (record c { stream = out })

-- `From<frame::Error>` for `crate::Error`: the text of `Display`.
unfoldable pub to_message : Error → Message
to_message incomplete = text (codes "stream ended early")
to_message (other m) = m

start : Connection → Cursor
start c = record { pos = 0; rest = c.buffer }

-- A frame is at most as deep as the buffer is long.
abbrev pub fuel : Connection → ℕ
fuel c = suc (length c.buffer)

-- `Ok(Some(frame))` with the parsed bytes discarded.
take_frame :
    Connection → ℕ → Outcome Error (Frame × Cursor) → Outcome Message (Option Frame × Connection)
take_frame c len (ok (f, _)) = ok (some f, record c { buffer = drop len c.buffer })
take_frame c len (err e) = err (to_message e)
take_frame c len panic = panic
take_frame c len out_of_fuel = out_of_fuel

module _ (pf : Platform) where
  after_check :
      Connection → Outcome Error (Unit {0} × Cursor) → Outcome Message (Option Frame × Connection)
  unfolding take_frame start to_message
  after_check c (ok (_, d)) = take_frame c d.pos (decode pf (fuel c) (start c))
  after_check c (err incomplete) = ok (none, c)
  after_check c (err (other m)) = err m
  after_check c panic = panic
  after_check c out_of_fuel = out_of_fuel

  unfoldable pub parse_frame : Connection → Outcome Message (Option Frame × Connection)
  unfolding after_check start
  parse_frame c = after_check c (check pf (fuel c) (start c))

-- What `read_buf` finds; no bytes mean the end of the stream.
pub data Arrival : Type 0 where
  received : Bytes → Arrival
  io_failed : Message → Arrival

-- `done` returns and leaves the later arrivals; the connection stays with its owner, also behind an
-- error. `waiting` is suspended at `read_buf`.
pub data Progress : Type 0 where
  done : Outcome (Message × Connection) (Option Frame × Connection) → List Arrival → Progress
  waiting : Connection → Progress

-- The remote closed the connection.
unfoldable pub closed : Connection → Outcome (Message × Connection) (Option Frame × Connection)
closed c =
    if length c.buffer == 0 then ok (none, c) else err (text (codes "connection reset by peer"), c)

-- The loop of `read_frame`, its body after `parse_frame`.
module _ (pf : Platform) where
  unfoldable pub read_frame : Connection → List Arrival → Progress
  unfolding closed
  read_frame c [] = elim (parse_frame pf c) [
    | ok (some f, c') ↦ done (ok (some f, c')) []
    | ok (none, c') ↦ waiting c'
    | err m ↦ done (err (m, c)) []
    | panic ↦ done panic []
    | out_of_fuel ↦ done out_of_fuel []
  ]
  read_frame c (io_failed m ∷ later) = elim (parse_frame pf c) [
    | ok (some f, c') ↦ done (ok (some f, c')) (io_failed m ∷ later)
    | ok (none, c') ↦ done (err (m, c')) later
    | err m' ↦ done (err (m', c)) (io_failed m ∷ later)
    | panic ↦ done panic (io_failed m ∷ later)
    | out_of_fuel ↦ done out_of_fuel (io_failed m ∷ later)
  ]
  read_frame c (received [] ∷ later) = elim (parse_frame pf c) [
    | ok (some f, c') ↦ done (ok (some f, c')) (received [] ∷ later)
    | ok (none, c') ↦ done (closed c') later
    | err m ↦ done (err (m, c)) (received [] ∷ later)
    | panic ↦ done panic (received [] ∷ later)
    | out_of_fuel ↦ done out_of_fuel (received [] ∷ later)
  ]
  read_frame c (received (b ∷ s) ∷ later) = elim (parse_frame pf c) [
    | ok (some f, c') ↦ done (ok (some f, c')) (received (b ∷ s) ∷ later)
    | ok (none, c') ↦ read_frame (record c' { buffer = c'.buffer ++ b ∷ s }) later
    | err m ↦ done (err (m, c)) (received (b ∷ s) ∷ later)
    | panic ↦ done panic (received (b ∷ s) ∷ later)
    | out_of_fuel ↦ done out_of_fuel (received (b ∷ s) ∷ later)
  ]
