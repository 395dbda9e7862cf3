-- ===== src/Std/Decimal.antt =====
-- `Display` and `ToString` of the unsigned integers: decimal digits, no leading zero.
use tokioconf_2026_workshop.Base.{
  ℕ, zero, suc, ◌+◌, ◌/◌, ◌%◌, ◌^◌, ◌≤◌, ◌<◌, ◌≡◌, refl, inl, inr, [], ◌∷◌, arith, Bytes, ◌==◌,
  if◌then◌else◌, length, All, Bool-cases,
}
use native.Mathlib.Nat.{pow-suc}

-- One digit a round, the last one first.
unfoldable pub digits : ℕ → ℕ → Bytes → Bytes
digits zero n out = out
digits (suc f) n out =
    let more = digits f (n / 10) ((b'0' + n % 10) ∷ out) in
    if n / 10 == 0 then (b'0' + n % 10) ∷ out else more

-- 39 rounds are enough for a `u128`.
unfoldable pub decimal : ℕ → Bytes
unfolding digits
decimal n = digits 39 n []

abbrev pub IsDigit : ℕ → Type 0
IsDigit c = (b'0' ≤ c) × (c ≤ b'9')

digits-All : (f n : ℕ) (out : Bytes) → All IsDigit out → All IsDigit (digits f n out)
unfolding digits
digits-All zero n out h = h
digits-All (suc f) n out h =
    let d : IsDigit (b'0' + n % 10) = (omega arith, omega arith) in
    elim (Bool-cases (n / 10 == 0)) [
      | inl e ↦ rw e (d, h)
      | inr e ↦ rw e (digits-All f (n / 10) ((b'0' + n % 10) ∷ out) (d, h))
    ]

pub decimal-All : (n : ℕ) → All IsDigit (decimal n)
unfolding decimal
decimal-All n = digits-All 39 n [] tt

digits-pos : (f n : ℕ) (out : Bytes) → 0 < length out → 0 < length (digits f n out)
unfolding digits
digits-pos zero n out h = h
digits-pos (suc f) n out h = ground (arith, digits-pos f (n / 10) ((b'0' + n % 10) ∷ out))

pub length-decimal_pos : (n : ℕ) → 0 < length (decimal n)
unfolding decimal
length-decimal_pos n = ground (arith, digits-pos 38 (n / 10) ((b'0' + n % 10) ∷ []))

length-digits :
    (k f n : ℕ) (out : Bytes) → n < 10 ^ suc k → length (digits f n out) ≤ suc k + length out
unfolding digits
length-digits k zero n out h = omega arith
length-digits zero (suc f) n out h = let p = pow-suc 10 0 in ground (arith, p)
length-digits (suc k) (suc f) n out h =
    let p = pow-suc 10 (suc k) in
    ground (arith, p, length-digits k f (n / 10) ((b'0' + n % 10) ∷ out))

-- A `u64` has at most 20 digits.
pub length-decimal : (n : ℕ) → n < 2 ^ 64 → length (decimal n) ≤ 20
unfolding decimal
length-decimal n h = omega (arith, length-digits 19 39 n [] (omega arith))

decimal_examples : (decimal 0 ≡ b'0' ∷ []) × (decimal 120 ≡ b'1' ∷ b'2' ∷ b'0' ∷ [])
unfolding decimal
decimal_examples = (refl, refl)
