-- ===== src/Frame/Wire.antt =====
-- The wire format of the Redis protocol, as a description independent of the code that reads and
-- writes it, and the frames that it can carry.
use tokioconf_2026_workshop.Base.{◌+◌, ◌^◌, ◌<◌, ◌≡◌, true, [], ◌∷◌, ◌++◌, Bytes, length}
use tokioconf_2026_workshop.Frame.{
  Frame, Frames, simple, error, integer, bulk, null, array, nil, cons, size,
}
use tokioconf_2026_workshop.Frame.Cursor.{cr, lf}
use tokioconf_2026_workshop.Std.Decimal.{decimal}
use tokioconf_2026_workshop.Std.Utf8.{is_utf8}

abbrev pub crlf : Bytes
crlf = cr ∷ lf ∷ []

-- A line, closed by "\r\n".
abbrev pub line : Bytes → Bytes
line s = s ++ crlf

unfoldable mutual
  pub encode : Frame → Bytes
  encode (simple s) = b'+' ∷ line s
  encode (error s) = b'-' ∷ line s
  encode (integer n) = b':' ∷ line (decimal n)
  encode (bulk s) = b'$' ∷ (line (decimal (length s)) ++ line s)
  encode null = b'$' ∷ b'-' ∷ b'1' ∷ crlf
  encode (array fs) = b'*' ∷ (line (decimal (size fs)) ++ encode_items fs)

  pub encode_items : Frames → Bytes
  encode_items nil = []
  encode_items (cons f fs) = encode f ++ encode_items fs

-- No "\r\n" inside.
abbrev pub NoCrlf : Bytes → Type 0
NoCrlf [] = Unit
NoCrlf (a ∷ []) = Unit
NoCrlf (a ∷ b ∷ s) = ¬ ((a ≡ cr) × (b ≡ lf)) × NoCrlf (b ∷ s)

-- Texts are UTF-8 with no line break, integers and lengths fit `u64`.
abbrev mutual
  pub IsCarried : Frame → Type 0
  IsCarried (simple s) = NoCrlf s × (is_utf8 s ≡ true)
  IsCarried (error s) = NoCrlf s × (is_utf8 s ≡ true)
  IsCarried (integer n) = n < 2 ^ 64
  IsCarried (bulk s) = length s + 2 < 2 ^ 64
  IsCarried null = Unit
  IsCarried (array fs) = (size fs < 2 ^ 64) × AreCarried fs

  pub AreCarried : Frames → Type 0
  AreCarried nil = Unit
  AreCarried (cons f fs) = IsCarried f × AreCarried fs
