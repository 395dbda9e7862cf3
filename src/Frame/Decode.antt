-- ===== src/Frame/Decode.antt =====
-- `Frame::parse`.
use tokioconf_2026_workshop.Base.{
  ℕ, zero, suc, Bytes, codes, ltb, ◌==◌, same, if◌then◌else◌, ok, err, panic, out_of_fuel, length,
  take,
}
use tokioconf_2026_workshop.Frame.{
  Frame, Frames, simple, error, integer, bulk, null, array, nil, cons, incomplete,
}
use tokioconf_2026_workshop.Frame.Cursor.{
  Reader, pure, fail, stop, ◌>>=◌, ◌>>◌, peek_u8, get_u8, skip, get_line, get_decimal,
  invalid_format,
}
use tokioconf_2026_workshop.Frame.Check.{plus_two}
use tokioconf_2026_workshop.Std.Platform.{Platform}
use tokioconf_2026_workshop.Std.Utf8.{is_utf8}

-- `get_line(src)?.to_vec()` as a `String`.
unfoldable pub get_string : Reader Bytes
get_string = get_line >>= λ line. if is_utf8 line then pure line else fail invalid_format

-- `&src.chunk()[..len]`, which panics if `len` is more than what remains.
unfoldable pub slice : ℕ → Reader Bytes
slice len c = if ltb (length c.rest) len then panic else ok (take len c.rest, c)

unfoldable pub require : ℕ → Reader (Unit {0})
require n c = if ltb (length c.rest) n then err incomplete else ok (tt, c)

-- `for _ in 0..len { out.push(item?) }`
unfoldable pub collect : Reader Frame → ℕ → Reader Frames
collect item zero = pure nil
collect item (suc n) = do f ← item; fs ← collect item n; pure (cons f fs)

unfoldable pub get_null : Reader Frame
get_null = get_line >>= λ line. if same line (codes "-1") then pure null else fail invalid_format

unfoldable pub get_bulk : ℕ → Reader Frame
unfolding plus_two require slice
get_bulk len = do require (plus_two len); bytes ← slice len; skip (plus_two len); pure (bulk bytes)

module _ (pf : Platform) where
  unfoldable pub decode_bulk : ℕ → Reader Frame
  unfolding get_null get_bulk
  decode_bulk b = if b == b'-' then get_null else (get_decimal pf >>= get_bulk)

  unfoldable pub decode_type : Reader Frame → ℕ → Reader Frame
  unfolding decode_bulk collect get_string
  decode_type nested b =
      if b == b'+'
      then get_string >>= (λ s. pure (simple s))
      else if b == b'-'
      then get_string >>= (λ s. pure (error s))
      else if b == b':'
      then get_decimal pf >>= (λ n. pure (integer n))
      else if b == b'$'
      then peek_u8 >>= decode_bulk
      else if b == b'*'
      then get_decimal pf >>= (λ len. collect nested len >>= λ fs. pure (array fs))
      else stop

  unfoldable pub decode : ℕ → Reader Frame
  unfolding decode_type
  decode zero c = out_of_fuel
  decode (suc f) c = (get_u8 >>= decode_type (decode f)) c
