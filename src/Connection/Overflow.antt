-- ===== src/Connection/Overflow.antt =====
-- The length of a bulk string close to 2 ^ 64, to which `Frame::check` and `Frame::parse` add two.
use tokioconf_2026_workshop.Base.{
  ℕ, suc, ◌+◌, ◌^◌, ◌∙◌, ◌<◌, ◌≤◌, ◌≡◌, refl, sym, ap, ◌∷◌, ◌++◌, append_assoc, arith, Bytes, ok,
  panic, length, length-append,
}
use tokioconf_2026_workshop.Connection.{
  Connection, parse_frame, after_check, start, take_frame, fuel,
}
use tokioconf_2026_workshop.Frame.Check.{check, check_bulk, check_type, plus_two}
use tokioconf_2026_workshop.Frame.Cursor.{get_u8, skip, get_byte, get_decimal}
use tokioconf_2026_workshop.Frame.Decode.{
  decode, decode_bulk, decode_type, get_bulk, require, slice,
}
use tokioconf_2026_workshop.Frame.Reads.{
  cursor, Reads, >>=-Reads, get_decimal-Reads, skip-Reads, first_digit,
}
use tokioconf_2026_workshop.Frame.RoundTrip.{get_u8-Reads, peek-Reads, peek-cons}
use tokioconf_2026_workshop.Frame.Wire.{crlf, line}
use tokioconf_2026_workshop.Std.Decimal.{decimal, length-decimal_pos, decimal-All}
use tokioconf_2026_workshop.Std.Platform.{Platform}

plus_two-wraps : (n k : ℕ) → n < 2 ^ 64 → k + 2 ^ 64 ≡ n + 2 → plus_two n ≡ k
unfolding plus_two
plus_two-wraps n k h e = omega arith

module _ (pf : Platform) where
  check-wraps :
      (n fuel : ℕ) (bs : Bytes)
      → n < 2 ^ 64
      → length bs + 2 ^ 64 ≡ n + 2
      → Reads (check pf (suc fuel)) (b'$' ∷ (line (decimal n) ++ bs)) tt
  unfolding check check_type check_bulk
  check-wraps n fuel bs h e = get_u8-Reads b'$' _ (line (decimal n) ++ bs) _ (
      peek-Reads n (check_bulk pf) bs _ λ d digit. rw digit (
        >>=-Reads (get_decimal pf) (λ len. skip (plus_two len)) (line (decimal n)) bs n tt
          (get_decimal-Reads pf n h)
          (skip-Reads (plus_two n) bs (sym (plus_two-wraps n (length bs) h e)))))

  get_bulk-wraps :
      (n pos : ℕ) (bs : Bytes)
      → n < 2 ^ 64
      → n + 2 ≤ length bs + 2 ^ 64
      → 2 ^ 64 ≤ n + 2
      → length bs < n
      → get_bulk n (cursor pos bs) ≡ panic
  unfolding get_bulk require slice plus_two
  get_bulk-wraps n pos bs h room wraps short = ground arith

  decode-wraps :
      (n fuel pos : ℕ) (bs : Bytes)
      → n < 2 ^ 64
      → n + 2 ≤ length bs + 2 ^ 64
      → 2 ^ 64 ≤ n + 2
      → length bs < n
      → decode pf (suc fuel) (cursor pos (b'$' ∷ (line (decimal n) ++ bs))) ≡ panic
  unfolding decode decode_type decode_bulk get_u8 get_byte
  decode-wraps n fuel pos bs h room wraps short =
      let (d, ds, e, digit) = first_digit (decimal n) (length-decimal_pos n) (decimal-All n) in
      let starts = ap (λ r. (r ++ crlf) ++ bs) e in
      rw
        (
          peek-cons (line (decimal n) ++ bs) d _ (pos + 1) starts,
          digit,
          get_decimal-Reads pf n h (pos + 1) bs,
        )
        (get_bulk-wraps n _ bs h room wraps short)

  -- The buffer begins with a bulk string of length n < 2 ^ 64, where n + 2 is 2 ^ 64 or 2 ^ 64 + 1,
  -- and behind its line holds fewer than n bytes, but at least as many as the sum after it wraps:
  -- `check` takes the line with those bytes for a complete frame, and `parse_frame` panics.
  pub parse_frame-overflow :
      (n : ℕ) (bs more : Bytes) (c : Connection)
      → n < 2 ^ 64
      → length bs + 2 ^ 64 ≡ n + 2
      → length (bs ++ more) < n
      → c.buffer ≡ b'$' ∷ (line (decimal n) ++ (bs ++ more))
      → (check pf (fuel c) (cursor 0 c.buffer)
          ≡ ok (tt, cursor (length (b'$' ∷ (line (decimal n) ++ bs))) more))
        × (parse_frame pf c ≡ panic)
  unfolding parse_frame after_check start take_frame
  parse_frame-overflow n bs more c h e short starts =
      let whole = append_assoc (line (decimal n)) bs more in
      let regroup : c.buffer ≡ (b'$' ∷ (line (decimal n) ++ bs)) ++ more =
        starts ∙ ap (λ s. b'$' ∷ s) (sym whole) in
      let checked =
        ap (λ s. check pf (fuel c) (cursor 0 s)) regroup
        ∙ check-wraps n (length c.buffer) bs h e 0 more in
      let panics =
        ap (λ s. decode pf (fuel c) (cursor 0 s)) starts
        ∙ decode-wraps n (length c.buffer) 0 (bs ++ more) h (omega (arith, length-append bs more))
            (omega arith) short in
      let ends : 0 + length (b'$' ∷ (line (decimal n) ++ bs))
          ≡ length (b'$' ∷ (line (decimal n) ++ bs)) =
        omega arith in
      (rw (checked, ends) refl, rw (checked, panics) refl)
