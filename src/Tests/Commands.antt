-- ===== src/Tests/Commands.antt =====
-- Commands at concrete inputs.
use tokioconf_2026_workshop.Base.{
  ◌≡◌, refl, true, some, arith, codes, ok, ◌++◌, ◌+◌, Bytes, length, Bool, ltb, ◌&&◌, ◌<◌, [], ◌∷◌,
}
use tokioconf_2026_workshop.Command.Apply.{apply_unknown, unknown_start}
use tokioconf_2026_workshop.Command.Replies.{sent, apply_unknown-splits}
use tokioconf_2026_workshop.Connection
use tokioconf_2026_workshop.Connection.{Connection}
use tokioconf_2026_workshop.Db
use tokioconf_2026_workshop.Db.{Shared}
use tokioconf_2026_workshop.Frame.Decode.{decode}
use tokioconf_2026_workshop.Frame.Reads.{cursor}
use tokioconf_2026_workshop.Frame.Wire.{crlf, encode, NoCrlf}
use tokioconf_2026_workshop.Command.{Command, set, from_frame, into_frame}
use tokioconf_2026_workshop.Command.RoundTrip.{from_frame-into_frame}
use tokioconf_2026_workshop.Frame.{Frame, error}
use tokioconf_2026_workshop.Std.Reference.{reference}
use tokioconf_2026_workshop.Std.Utf8.{is_utf8}

abbrev set_key : Command
set_key = set (codes "key") (codes "v") (some 1_500_000)

key_is_text : is_utf8 (codes "key") ≡ true
unfolding is_utf8
key_is_text = refl

from_frame-into_frame_example :
    (f : Frame) × (into_frame set_key ≡ some (ok f))
    × (from_frame reference f ≡ ok (set (codes "key") (codes "v") (some 1_000_000)))
from_frame-into_frame_example = from_frame-into_frame reference set_key (key_is_text, omega arith)

abbrev fresh : Connection
fresh = Connection.new

abbrev empty : Shared Bytes
empty = Db.new

set_returns : (Db.set 9 3 (codes "k") (codes "v") (some 2) empty).0 ≡ some true
unfolding Db.set Db.new
set_returns = refl

abbrev shown : Frame
shown = error (unknown_start ++ codes "a")

-- Only bytes behind CR.
abbrev above : Bytes → Bool
above [] = true
above (a ∷ s) = ltb 13 a && above s

above-NoCrlf : (s : Bytes) → above s ≡ true → NoCrlf s
above-NoCrlf [] h = tt
above-NoCrlf (a ∷ []) h = tt
above-NoCrlf (a ∷ b ∷ s) h = (λ (e, e'). ground arith, above-NoCrlf (b ∷ s) (ground arith))

shown_is_short : length (encode shown) < 99
unfolding encode
shown_is_short = omega arith

shown_is_text : is_utf8 (unknown_start ++ codes "a") ≡ true
unfolding is_utf8
shown_is_text = refl

apply_unknown-splits_example :
    (apply_unknown (codes "a" ++ (crlf ++ codes "+OK")) fresh
      ≡ ok (sent (encode shown ++ (codes "+OK" ++ (codes "'" ++ crlf))) fresh))
    × (decode reference 99 (cursor 0 (encode shown ++ (codes "+OK" ++ (codes "'" ++ crlf))))
        ≡ ok (shown, cursor (0 + length (encode shown)) (codes "+OK" ++ (codes "'" ++ crlf))))
apply_unknown-splits_example =
    apply_unknown-splits reference (codes "a") (codes "+OK") fresh 99
      (above-NoCrlf (unknown_start ++ codes "a") refl, shown_is_text) shown_is_short
