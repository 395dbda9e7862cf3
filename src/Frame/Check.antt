-- ===== src/Frame/Check.antt =====
-- `Frame::check`.
use tokioconf_2026_workshop.Base.{
  ℕ, zero, suc, ◌+◌, ◌%◌, ◌^◌, ◌++◌, codes, ◌==◌, if◌then◌else◌, out_of_fuel,
}
use tokioconf_2026_workshop.Frame.{text, other}
use tokioconf_2026_workshop.Frame.Cursor.{
  Reader, pure, fail, ◌>>=◌, peek_u8, get_u8, skip, get_line, get_decimal,
}
use tokioconf_2026_workshop.Std.Decimal.{decimal}
use tokioconf_2026_workshop.Std.Platform.{Platform}

-- `for _ in 0..len { body }`
unfoldable pub times : Reader (Unit {0}) → ℕ → Reader (Unit {0})
times body zero = pure tt
times body (suc n) = body >>= λ _. times body n

-- `len + 2` in `usize`.
unfoldable pub plus_two : ℕ → ℕ
plus_two len = (len + 2) % 2 ^ 64

module _ (pf : Platform) where
  unfoldable pub check_bulk : ℕ → Reader (Unit {0})
  unfolding plus_two
  check_bulk b = if b == b'-' then skip 4 else (get_decimal pf >>= λ len. skip (plus_two len))

  -- The type byte has been read; `nested` is the recursive call.
  unfoldable pub check_type : Reader (Unit {0}) → ℕ → Reader (Unit {0})
  unfolding check_bulk times
  check_type nested b =
      if b == b'+'
      then get_line >>= (λ _. pure tt)
      else if b == b'-'
      then get_line >>= (λ _. pure tt)
      else if b == b':'
      then get_decimal pf >>= (λ _. pure tt)
      else if b == b'$'
      then peek_u8 >>= check_bulk
      else if b == b'*'
      then get_decimal pf >>= (λ len. times nested len)
      else fail (
          other
            (text (codes "protocol error; invalid frame type byte `" ++ (decimal b ++ codes "`"))))

  -- A call reads a byte first, so that the bytes that remain bound the depth.
  unfoldable pub check : ℕ → Reader (Unit {0})
  unfolding check_type
  check zero c = out_of_fuel
  check (suc f) c = (get_u8 >>= check_type (check f)) c
