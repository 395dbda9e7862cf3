-- ===== src/Std/Platform.antt =====
-- The crate `atoi` and the case tables of `str`, as parameters with their documented behaviour.
use tokioconf_2026_workshop.Base.{
  ℕ, ◌+◌, ◌-◌, ◌^◌, ◌<◌, ◌≡◌, ◌&&◌, Option, some, map, Bytes, leb, if◌then◌else◌, All,
}
use tokioconf_2026_workshop.Std.Decimal.{decimal}
use tokioconf_2026_workshop.Std.Utf8.{IsAscii}

unfoldable pub ascii_lower : ℕ → ℕ
ascii_lower c = if leb b'A' c && leb c b'Z' then c + 32 else c

unfoldable pub ascii_upper : ℕ → ℕ
ascii_upper c = if leb b'a' c && leb c b'z' then c - 32 else c

pub record Platform : Type 0 where
  -- `atoi::<u64>`
  pub atoi : Bytes → Option ℕ
  -- `str::to_lowercase` and `str::to_uppercase`
  pub to_lowercase : Bytes → Bytes
  pub to_uppercase : Bytes → Bytes
  -- A `u64` is below 2 ^ 64, and is read back from its decimal digits.
  pub atoi-lt : (s : Bytes) (n : ℕ) → atoi s ≡ some n → n < 2 ^ 64
  pub atoi-decimal : (n : ℕ) → n < 2 ^ 64 → atoi (decimal n) ≡ some n
  -- On ASCII text the case is changed letter by letter.
  pub lowercase-ascii : (s : Bytes) → All IsAscii s → to_lowercase s ≡ map ascii_lower s
  pub uppercase-ascii : (s : Bytes) → All IsAscii s → to_uppercase s ≡ map ascii_upper s
