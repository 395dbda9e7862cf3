-- ===== src/Frame/Reads.antt =====
-- What each step of the reader takes off the front of the buffer.
use tokioconf_2026_workshop.Base.{
  ℕ, ◌+◌, ◌^◌, ◌<◌, ◌≡◌, refl, false, some, [], ◌∷◌, ◌++◌, append_assoc, arith, Bytes, ◌==◌,
  ltb-false, ok, length, length-append, drop-length, take-length, All,
}
use tokioconf_2026_workshop.Frame.Cursor.{
  Cursor, Reader, ◌>>=◌, skip, split_line, take_line, get_line, decimal_of, get_decimal, cr, lf,
}
use tokioconf_2026_workshop.Frame.Decode.{slice}
use tokioconf_2026_workshop.Frame.Wire.{crlf, line, NoCrlf}
use tokioconf_2026_workshop.Std.Decimal.{decimal, IsDigit, decimal-All}
use tokioconf_2026_workshop.Std.Platform.{Platform}

abbrev pub cursor : ℕ → Bytes → Cursor
cursor pos s = record { pos = pos; rest = s }

-- `p` takes exactly `bs` off any buffer that begins with it, and its value is `a`.
abbrev pub Reads {ℓ} : {A : Type ℓ} → Reader A → Bytes → A → Type ℓ
Reads p bs a =
    (pos : ℕ) (more : Bytes) → p (cursor pos (bs ++ more)) ≡ ok (a, cursor (pos + length bs) more)

pub >>=-Reads {ℓ κ} :
    {A : Type ℓ} {B : Type κ} (p : Reader A) (f : A → Reader B) (bs cs : Bytes) (a : A) (b : B)
    → Reads p bs a
    → Reads (f a) cs b
    → Reads (p >>= f) (bs ++ cs) b
>>=-Reads p f bs cs a b hp hf pos more =
    let ends : pos + length bs + length cs ≡ pos + length (bs ++ cs) =
      omega (arith, length-append bs cs) in
    rw (append_assoc bs cs more, hp pos (cs ++ more), hf (pos + length bs) more, ends)

split_line-NoCrlf :
    (s more : Bytes) → NoCrlf s → split_line (s ++ (cr ∷ lf ∷ more)) ≡ some (s, more)
unfolding split_line
split_line-NoCrlf [] more h = refl
split_line-NoCrlf (a ∷ []) more h = ground arith
split_line-NoCrlf (a ∷ b ∷ s) more (no_end, h) =
    let ih = split_line-NoCrlf (b ∷ s) more h in ground arith

pub get_line-Reads : (s : Bytes) → NoCrlf s → Reads get_line (line s) s
unfolding get_line take_line
get_line-Reads s h pos more =
    let whole = append_assoc s crlf more in
    let some_left : (pos + length (s ++ (cr ∷ lf ∷ more)) == 0) ≡ false =
      ground (arith, length-append s (cr ∷ lf ∷ more)) in
    let ends : pos + length s + 2 ≡ pos + length (line s) = omega (arith, length-append s crlf) in
    rw (whole, some_left, split_line-NoCrlf s more h, ends)

pub decimal-NoCrlf : (s : Bytes) → All IsDigit s → NoCrlf s
decimal-NoCrlf [] h = tt
decimal-NoCrlf (a ∷ []) h = tt
decimal-NoCrlf (a ∷ b ∷ s) (ha, hs) = (λ (e, e'). absurd (omega arith), decimal-NoCrlf (b ∷ s) hs)

pub get_decimal-Reads :
    (pf : Platform) (n : ℕ) → n < 2 ^ 64 → Reads (get_decimal pf) (line (decimal n)) n
unfolding get_decimal decimal_of
get_decimal-Reads pf n h pos more = rw (
  get_line-Reads (decimal n) (decimal-NoCrlf (decimal n) (decimal-All n)) pos more,
  pf.atoi-decimal n h,
)

pub skip-Reads : (n : ℕ) (bs : Bytes) → length bs ≡ n → Reads (skip n) bs tt
unfolding skip
skip-Reads n bs e pos more =
    let enough =
      ltb-false (length (bs ++ more)) (length bs) (omega (arith, length-append bs more)) in
    rw (← e, enough, drop-length bs more)

pub slice-front :
    (bs more : Bytes) (pos : ℕ)
    → slice (length bs) (cursor pos (bs ++ more)) ≡ ok (bs, cursor pos (bs ++ more))
unfolding slice
slice-front bs more pos =
    let enough =
      ltb-false (length (bs ++ more)) (length bs) (omega (arith, length-append bs more)) in
    rw (enough, take-length bs more)

-- A number does not begin like the null frame.
pub first_digit :
    (s : Bytes)
    → 0 < length s
    → All IsDigit s
    → (d : ℕ) × (ds : Bytes) × (s ≡ d ∷ ds) × ((d == b'-') ≡ false)
first_digit [] h a = absurd (omega arith)
first_digit (d ∷ ds) h (hd, _) = (d, ds, refl, ground arith)
