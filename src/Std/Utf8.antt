-- ===== src/Std/Utf8.antt =====
-- `str::from_utf8` and `String::from_utf8`: whether bytes are well-formed UTF-8.
use tokioconf_2026_workshop.Base.{
  ℕ, zero, suc, ◌<◌, ◌≡◌, refl, Bool, true, false, ◌&&◌, Option, none, some, [], ◌∷◌, arith, Bytes,
  leb, ltb, ◌==◌, if◌then◌else◌, All,
}

-- Behind a byte: how many continuation bytes are due, and the range of the next one.
abbrev Due : Type 0
Due = ℕ × ℕ × ℕ

within : ℕ → ℕ → ℕ → Bool
within lo hi b = leb lo b && leb b hi

-- The first byte of a character (table 3-7 of the Unicode standard).
lead : ℕ → Option Due
unfolding within
lead b =
    if ltb b 0x80
    then some (0, 0, 0)
    else if within 0xc2 0xdf b
    then some (1, 0x80, 0xbf)
    else if b == 0xe0
    then some (2, 0xa0, 0xbf)
    else if b == 0xed
    then some (2, 0x80, 0x9f)
    else if within 0xe1 0xef b
    then some (2, 0x80, 0xbf)
    else if b == 0xf0
    then some (3, 0x90, 0xbf)
    else if within 0xf1 0xf3 b
    then some (3, 0x80, 0xbf)
    else if b == 0xf4
    then some (3, 0x80, 0x8f)
    else none

next_due : Due → ℕ → Option Due
unfolding lead
next_due (zero, lo, hi) b = lead b
next_due (suc n, lo, hi) b = if within lo hi b then some (n, 0x80, 0xbf) else none

scan : Due → Bytes → Bool
unfolding next_due
scan d [] = d.0 == 0
scan d (b ∷ s) = elim (next_due d b) [ none ↦ false | some d' ↦ scan d' s ]

unfoldable pub is_utf8 : Bytes → Bool
unfolding scan
is_utf8 s = scan (0, 0, 0) s

abbrev pub IsAscii : ℕ → Type 0
IsAscii c = c < 128

-- ASCII text is UTF-8.
pub is_utf8-ascii : (s : Bytes) → All IsAscii s → is_utf8 s ≡ true
unfolding is_utf8
is_utf8-ascii [] h = refl
is_utf8-ascii (c ∷ s) (hc, hs) = ground (arith, is_utf8-ascii s hs)

is_utf8_examples :
    (is_utf8 (0xc3 ∷ 0xa9 ∷ b'a' ∷ []) ≡ true)
    × (is_utf8 (0xc0 ∷ 0x80 ∷ []) ≡ false)
    × (is_utf8 (0xe2 ∷ 0x82 ∷ []) ≡ false)
    × (is_utf8 (0xed ∷ 0xa0 ∷ 0x80 ∷ []) ≡ false)
unfolding is_utf8
is_utf8_examples = (refl, refl, refl, refl)
