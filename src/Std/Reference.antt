-- ===== src/Std/Reference.antt =====
-- A platform that behaves as documented: plain digit reading, and ASCII case tables.
use tokioconf_2026_workshop.Base.{
  ℕ, zero, suc, ◌+◌, ◌-◌, ◌*◌, ◌/◌, ◌%◌, ◌^◌, ◌<◌, ◌≡◌, refl, Bool, true, false, ◌&&◌, Option, none,
  some, [], ◌∷◌, map, arith, Bytes, leb, ltb, lt→ltb, if◌then◌else◌, length, All,
}
use native.Mathlib.Nat.{pow-suc}
use tokioconf_2026_workshop.Std.Decimal.{digits, decimal, IsDigit, decimal-All, length-decimal_pos}
use tokioconf_2026_workshop.Std.Platform.{Platform, ascii_lower, ascii_upper}

is_digit : ℕ → Bool
is_digit c = leb b'0' c && leb c b'9'

-- The digits at the front, behind the number read so far.
value : ℕ → Bytes → ℕ
unfolding is_digit
value acc [] = acc
value acc (c ∷ s) = let more = value (acc * 10 + (c - b'0')) s in if is_digit c then more else acc

starts_digit : Bytes → Bool
unfolding is_digit
starts_digit [] = false
starts_digit (c ∷ s) = is_digit c

unfoldable pub atoi : Bytes → Option ℕ
unfolding value starts_digit
atoi s = if starts_digit s && ltb (value 0 s) (2 ^ 64) then some (value 0 s) else none

value-digits : (f n : ℕ) (out : Bytes) → n < 10 ^ f → value 0 (digits f n out) ≡ value n out
unfolding value digits
value-digits zero n out h = let e : n ≡ 0 = omega arith in rw e
value-digits (suc f) n out h =
    let p = pow-suc 10 f in ground (arith, p, value-digits f (n / 10) ((b'0' + n % 10) ∷ out))

starts_digit-All : (s : Bytes) → 0 < length s → All IsDigit s → starts_digit s ≡ true
unfolding starts_digit
starts_digit-All [] h a = absurd (omega arith)
starts_digit-All (c ∷ s) h a = ground arith

pub reads : (n : ℕ) → n < 2 ^ 64 → atoi (decimal n) ≡ some n
unfolding decimal value
reads n h =
    let v : value 0 (decimal n) ≡ n = value-digits 39 n [] (omega arith) in
    let d = starts_digit-All (decimal n) (length-decimal_pos n) (decimal-All n) in
    read_back (decimal n) n d v h
  where
    read_back :
        (s : Bytes) (n : ℕ) → starts_digit s ≡ true → value 0 s ≡ n → n < 2 ^ 64 → atoi s ≡ some n
    read_back s n d v h = unfold atoi in rw (d, v, lt→ltb n (2 ^ 64) h)

pub atoi_below : (s : Bytes) (n : ℕ) → atoi s ≡ some n → n < 2 ^ 64
unfolding atoi
atoi_below s n h = ground arith

abbrev pub reference : Platform
reference = record {
  atoi = atoi;
  to_lowercase = map ascii_lower;
  to_uppercase = map ascii_upper;
  atoi-lt = atoi_below;
  atoi-decimal = reads;
  lowercase-ascii = λ s h. refl;
  uppercase-ascii = λ s h. refl;
}
