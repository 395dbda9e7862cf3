-- ===== src/Frame/Cursor.antt =====
-- frame.rs, lines 213 to 265: reading from `Cursor<&[u8]>`.
use tokioconf_2026_workshop.Base.{
  ℕ, ◌+◌, ◌&&◌, Option, none, some, [], ◌∷◌, Bytes, codes, ltb, ◌==◌, if◌then◌else◌, Outcome, ok,
  err, panic, length, drop, and_then,
}
use tokioconf_2026_workshop.Frame.{text, Error, incomplete, other}
use tokioconf_2026_workshop.Std.Platform.{Platform}

-- A cursor at `pos` with the bytes from there on; nothing reads what lies before the position.
pub record Cursor : Type 0 where
  pub pos : ℕ
  pub rest : Bytes

-- A function of `src: &mut Cursor` with result `Result<A, Error>`.
abbrev pub Reader {ℓ} : Type ℓ → Type ℓ
Reader A = Cursor → Outcome Error (A × Cursor)

abbrev pub pure {ℓ} : {A : Type ℓ} → A → Reader A
pure a c = ok (a, c)

abbrev pub fail {ℓ} : {A : Type ℓ} → Error → Reader A
fail e c = err e

abbrev pub stop {ℓ} : {A : Type ℓ} → Reader A
stop c = panic

module _ {ℓ κ} {A : Type ℓ} {B : Type κ} where
  infixl 1 ◌>>=◌ ◌>>◌
  abbrev pub ◌>>=◌ : Reader A → (A → Reader B) → Reader B
  (p >>= f) c = and_then (p c) λ (a, c'). f a c'

  abbrev pub ◌>>◌ : Reader A → Reader B → Reader B
  (p >> q) c = and_then (p c) λ (a, c'). q c'

abbrev pub invalid_format : Error
invalid_format = other (text (codes "protocol error; invalid frame format"))

-- `src.advance(n)` with `n` at most what remains.
abbrev pub advance : ℕ → Cursor → Cursor
advance n c = record { pos = c.pos + n; rest = drop n c.rest }

unfoldable pub peek_byte : Bytes → Reader ℕ
peek_byte [] c = err incomplete
peek_byte (b ∷ s) c = ok (b, c)

unfoldable pub peek_u8 : Reader ℕ
unfolding peek_byte
peek_u8 c = peek_byte c.rest c

unfoldable pub get_byte : Bytes → Reader ℕ
get_byte [] c = err incomplete
get_byte (b ∷ s) c = ok (b, record { pos = c.pos + 1; rest = s })

unfoldable pub get_u8 : Reader ℕ
unfolding get_byte
get_u8 c = get_byte c.rest c

unfoldable pub skip : ℕ → Reader (Unit {0})
skip n c = if ltb (length c.rest) n then err incomplete else ok (tt, advance n c)

abbrev pub cr : ℕ
cr = 13

abbrev pub lf : ℕ
lf = 10

-- A byte that the line goes on with.
unfoldable pub put_front : ℕ → Option (Bytes × Bytes) → Option (Bytes × Bytes)
put_front a none = none
put_front a (some (line, after)) = some (a ∷ line, after)

-- The loop over the positions: the bytes before the first "\r\n", and those after it.
unfoldable pub split_line : Bytes → Option (Bytes × Bytes)
unfolding put_front
split_line [] = none
split_line (a ∷ []) = none
split_line (a ∷ b ∷ s) =
    if (a == cr) && (b == lf) then some ([], s) else put_front a (split_line (b ∷ s))

unfoldable pub take_line : Option (Bytes × Bytes) → Reader Bytes
take_line none c = err incomplete
take_line (some (line, after)) c = ok (line, record { pos = c.pos + length line + 2; rest = after })

-- `src.get_ref().len() - 1` wraps on an empty buffer, and the loop then indexes out of bounds.
unfoldable pub get_line : Reader Bytes
unfolding take_line
get_line c = if c.pos + length c.rest == 0 then panic else take_line (split_line c.rest) c

unfoldable pub decimal_of : Option ℕ → Reader ℕ
decimal_of (some n) = pure n
decimal_of none = fail invalid_format

unfoldable pub get_decimal : Platform → Reader ℕ
unfolding decimal_of
get_decimal pf = do line ← get_line; decimal_of (pf.atoi line)
