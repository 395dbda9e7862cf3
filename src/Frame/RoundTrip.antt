-- ===== src/Frame/RoundTrip.antt =====
-- A frame on the wire is found complete and read back, whatever follows it in the buffer.
use tokioconf_2026_workshop.Base.{
  ℕ, zero, suc, ◌+◌, ◌^◌, ◌<◌, ◌≡◌, sym, ap, true, false, [], ◌∷◌, ◌++◌, append_assoc, arith, Bytes,
  codes, ltb-false, ◌==◌, same_refl, ok, length, length-append,
}
use tokioconf_2026_workshop.Frame.{
  Frame, Frames, simple, error, integer, bulk, null, array, nil, cons, size,
}
use tokioconf_2026_workshop.Frame.Cursor.{
  Reader, pure, ◌>>=◌, peek_u8, peek_byte, get_u8, get_byte, get_decimal,
}
use tokioconf_2026_workshop.Frame.Check.{plus_two}
use tokioconf_2026_workshop.Frame.Decode.{
  get_string, require, collect, get_null, get_bulk, decode_bulk, decode_type, decode,
}
use tokioconf_2026_workshop.Frame.Wire.{
  crlf, line, encode, encode_items, NoCrlf, IsCarried, AreCarried,
}
use tokioconf_2026_workshop.Frame.Reads.{
  cursor, Reads, >>=-Reads, get_line-Reads, get_decimal-Reads, skip-Reads, slice-front, first_digit,
}
use tokioconf_2026_workshop.Std.Decimal.{decimal, decimal-All, length-decimal_pos}
use tokioconf_2026_workshop.Std.Platform.{Platform}
use tokioconf_2026_workshop.Std.Utf8.{is_utf8}

pub pure-Reads {ℓ} : {A : Type ℓ} (a : A) → Reads (pure a) [] a
pure-Reads a pos more = let e : pos ≡ pos + 0 = omega arith in rw (← e)

-- A value is made of what was read.
pub then_pure {ℓ κ} :
    {A : Type ℓ} {B : Type κ} (p : Reader A) (g : A → B) (bs : Bytes) (a : A)
    → Reads p bs a
    → Reads (p >>= λ x. pure (g x)) bs (g a)
then_pure p g bs a h pos more = rw (h pos more)

-- The type byte and what stands behind it.
pub get_u8-Reads {ℓ} :
    {A : Type ℓ} (b : ℕ) (f : ℕ → Reader A) (bs : Bytes) (a : A)
    → Reads (f b) bs a
    → Reads (get_u8 >>= f) (b ∷ bs) a
unfolding get_u8 get_byte
get_u8-Reads b f bs a h pos more =
    let ends : pos + 1 + length bs ≡ pos + suc (length bs) = omega arith in
    rw (h (pos + 1) more, ends)

get_string-Reads : (s : Bytes) → NoCrlf s → is_utf8 s ≡ true → Reads get_string (line s) s
unfolding get_string
get_string-Reads s h u pos more = rw (get_line-Reads s h pos more, u)

pub plus_two-lt : (n : ℕ) → n + 2 < 2 ^ 64 → plus_two n ≡ n + 2
unfolding plus_two
plus_two-lt n h = omega arith

pub peek-cons :
    (s : Bytes) (d : ℕ) (ds : Bytes) (pos : ℕ)
    → s ≡ d ∷ ds
    → peek_u8 (cursor pos s) ≡ ok (d, cursor pos s)
unfolding peek_u8 peek_byte
peek-cons s d ds pos e = rw e

-- A peek at the digits of a length leaves them in place.
pub peek-Reads {ℓ} :
    {A : Type ℓ} (n : ℕ) (f : ℕ → Reader A) (bs : Bytes) (a : A)
    → ((d : ℕ) → (d == b'-') ≡ false → Reads (f d) (line (decimal n) ++ bs) a)
    → Reads (peek_u8 >>= f) (line (decimal n) ++ bs) a
peek-Reads n f bs a h pos more =
    let (d, ds, e, digit) = first_digit (decimal n) (length-decimal_pos n) (decimal-All n) in
    let starts = ap (λ r. ((r ++ crlf) ++ bs) ++ more) e in
    let peeked = peek-cons ((line (decimal n) ++ bs) ++ more) d _ pos starts in
    rw peeked (h d digit pos more)

require-front :
    (s more : Bytes) (pos n : ℕ)
    → n ≡ length s
    → require n (cursor pos (s ++ more)) ≡ ok (tt, cursor pos (s ++ more))
unfolding require
require-front s more pos n e =
    rw (e, ltb-false (length (s ++ more)) (length s) (omega (arith, length-append s more)))

get_bulk-Reads : (s : Bytes) → length s + 2 < 2 ^ 64 → Reads (get_bulk (length s)) (line s) (bulk s)
unfolding get_bulk
get_bulk-Reads s h pos more =
    let n = plus_two-lt (length s) h in
    let whole : length s + 2 ≡ length (line s) = omega (arith, length-append s crlf) in
    rw (
      n,
      require-front (line s) more pos (length s + 2) whole,
      append_assoc s crlf more,
      slice-front s (crlf ++ more) pos,
      ← append_assoc s crlf more,
      skip-Reads (length s + 2) (line s) (sym whole) pos more,
    )

module _ (pf : Platform) where
  decode_bulk-Reads :
      (s : Bytes) (d : ℕ)
      → length s + 2 < 2 ^ 64
      → (d == b'-') ≡ false
      → Reads (decode_bulk pf d) (line (decimal (length s)) ++ line s) (bulk s)
  unfolding decode_bulk
  decode_bulk-Reads s d h digit = rw digit (
      >>=-Reads (get_decimal pf) get_bulk (line (decimal (length s))) (line s) (length s) _
        (get_decimal-Reads pf (length s) (omega arith)) (get_bulk-Reads s h))

  get_null-Reads : Reads (peek_u8 >>= decode_bulk pf) (b'-' ∷ b'1' ∷ crlf) null
  unfolding peek_u8 peek_byte decode_bulk get_null
  get_null-Reads pos more =
      rw (get_line-Reads (codes "-1") (λ h. absurd (omega (arith, h.0)), tt) pos more, same_refl)

  mutual
    unfolding encode decode decode_type collect size

    pub decode-Reads :
        (f : Frame) (fuel : ℕ)
        → IsCarried f
        → length (encode f) < fuel
        → Reads (decode pf fuel) (encode f) f
    decode-Reads f zero h short = absurd (omega arith)
    decode-Reads (simple s) (suc fuel) (h, u) short =
        get_u8-Reads b'+' _ (line s) _
          (then_pure get_string simple (line s) s (get_string-Reads s h u))
    decode-Reads (error s) (suc fuel) (h, u) short =
        get_u8-Reads b'-' _ (line s) _
          (then_pure get_string error (line s) s (get_string-Reads s h u))
    decode-Reads (integer n) (suc fuel) h short =
        get_u8-Reads b':' _ (line (decimal n)) _
          (then_pure (get_decimal pf) integer (line (decimal n)) n (get_decimal-Reads pf n h))
    decode-Reads (bulk s) (suc fuel) h short =
        get_u8-Reads b'$' _ (line (decimal (length s)) ++ line s) _ (
          peek-Reads (length s) (decode_bulk pf) (line s) _
            λ d digit. decode_bulk-Reads s d h digit)
    decode-Reads null (suc fuel) h short = get_u8-Reads b'$' _ (b'-' ∷ b'1' ∷ crlf) _ get_null-Reads
    decode-Reads (array fs) (suc fuel) (h, hs) short =
        get_u8-Reads b'*' _ (line (decimal (size fs)) ++ encode_items fs) _ (
          >>=-Reads (get_decimal pf) (λ len. collect (decode pf fuel) len >>= λ gs. pure (array gs))
            (line (decimal (size fs))) (encode_items fs) (size fs) _
            (get_decimal-Reads pf (size fs) h)
            (then_pure (collect (decode pf fuel) (size fs)) array (encode_items fs) fs (
              collect-Reads fs fuel hs
                (omega (arith, length-append (line (decimal (size fs))) (encode_items fs))))))

    pub collect-Reads :
        (fs : Frames) (fuel : ℕ)
        → AreCarried fs
        → length (encode_items fs) < fuel
        → Reads (collect (decode pf fuel) (size fs)) (encode_items fs) fs
    collect-Reads nil fuel h short = pure-Reads nil
    collect-Reads (cons f fs) fuel (h, hs) short =
        >>=-Reads (decode pf fuel) _ (encode f) (encode_items fs) f _
          (decode-Reads f fuel h (omega (arith, length-append (encode f) (encode_items fs))))
          (then_pure (collect (decode pf fuel) (size fs)) (cons f) (encode_items fs) fs
            (collect-Reads fs fuel hs (omega (arith, length-append (encode f) (encode_items fs)))))
