-- ===== src/Frame/Complete.antt =====
-- A frame on the wire is found complete, and every shorter part of it incomplete.
use tokioconf_2026_workshop.Base.{
  ℕ, zero, suc, ◌+◌, ◌^◌, ◌<◌, ◌≡◌, refl, ap, false, [], ◌∷◌, ◌++◌, append-nil, arith, Bytes, ◌==◌,
  Outcome, ok, length, length-append,
}
use tokioconf_2026_workshop.Frame.{
  Frame, Frames, simple, error, integer, bulk, null, array, nil, cons, size,
}
use tokioconf_2026_workshop.Frame.Cursor.{
  Cursor, ◌>>=◌, peek_u8, peek_byte, skip, get_line, get_decimal,
}
use tokioconf_2026_workshop.Frame.Check.{times, plus_two, check_bulk, check_type, check}
use tokioconf_2026_workshop.Frame.Decode.{decode}
use tokioconf_2026_workshop.Frame.Wire.{crlf, line, encode, encode_items, IsCarried, AreCarried}
use tokioconf_2026_workshop.Frame.Reads.{
  cursor, Reads, >>=-Reads, get_line-Reads, get_decimal-Reads, skip-Reads,
}
use tokioconf_2026_workshop.Std.Decimal.{decimal}
use tokioconf_2026_workshop.Std.Platform.{Platform}
use tokioconf_2026_workshop.Frame.RoundTrip.{
  decode-Reads, pure-Reads, then_pure, get_u8-Reads, plus_two-lt, peek-Reads,
}
use tokioconf_2026_workshop.Frame.{Error, incomplete, other}
use tokioconf_2026_workshop.Frame.Local.{Persists, check-Grows}
use tokioconf_2026_workshop.Frame.Total.{Consumes, Safe, check-Safe}
use tokioconf_2026_workshop.Base.{err, panic, out_of_fuel}

module _ (pf : Platform) where
  check_bulk-Reads :
      (s : Bytes) (d : ℕ)
      → length s + 2 < 2 ^ 64
      → (d == b'-') ≡ false
      → Reads (check_bulk pf d) (line (decimal (length s)) ++ line s) tt
  unfolding check_bulk
  check_bulk-Reads s d h digit =
      let whole : length (line s) ≡ plus_two (length s) =
        omega (arith, length-append s crlf, plus_two-lt (length s) h) in
      rw digit (
        >>=-Reads (get_decimal pf) (λ len. skip (plus_two len)) (line (decimal (length s))) (line s)
          (length s) tt (get_decimal-Reads pf (length s) (omega arith))
          (skip-Reads (plus_two (length s)) (line s) whole))

  skip_null-Reads : Reads (peek_u8 >>= check_bulk pf) (b'-' ∷ b'1' ∷ crlf) tt
  unfolding peek_u8 peek_byte check_bulk
  skip_null-Reads pos more = skip-Reads 4 (b'-' ∷ b'1' ∷ crlf) refl pos more

  mutual
    unfolding encode check check_type times size

    pub check-Reads :
        (f : Frame) (fuel : ℕ)
        → IsCarried f
        → length (encode f) < fuel
        → Reads (check pf fuel) (encode f) tt
    check-Reads f zero h short = absurd (omega arith)
    check-Reads (simple s) (suc fuel) (h, u) short =
        get_u8-Reads b'+' _ (line s) _
          (then_pure get_line (λ _. tt) (line s) s (get_line-Reads s h))
    check-Reads (error s) (suc fuel) (h, u) short =
        get_u8-Reads b'-' _ (line s) _
          (then_pure get_line (λ _. tt) (line s) s (get_line-Reads s h))
    check-Reads (integer n) (suc fuel) h short =
        get_u8-Reads b':' _ (line (decimal n)) _
          (then_pure (get_decimal pf) (λ _. tt) (line (decimal n)) n (get_decimal-Reads pf n h))
    check-Reads (bulk s) (suc fuel) h short =
        get_u8-Reads b'$' _ (line (decimal (length s)) ++ line s) _
          (peek-Reads (length s) (check_bulk pf) (line s) _ λ d digit. check_bulk-Reads s d h digit)
    check-Reads null (suc fuel) h short = get_u8-Reads b'$' _ (b'-' ∷ b'1' ∷ crlf) _ skip_null-Reads
    check-Reads (array fs) (suc fuel) (h, hs) short =
        get_u8-Reads b'*' _ (line (decimal (size fs)) ++ encode_items fs) _ (
          >>=-Reads (get_decimal pf) (times (check pf fuel)) (line (decimal (size fs)))
            (encode_items fs) (size fs) _ (get_decimal-Reads pf (size fs) h)
            (times-Reads fs fuel hs
              (omega (arith, length-append (line (decimal (size fs))) (encode_items fs)))))

    times-Reads :
        (fs : Frames) (fuel : ℕ)
        → AreCarried fs
        → length (encode_items fs) < fuel
        → Reads (times (check pf fuel) (size fs)) (encode_items fs) tt
    times-Reads nil fuel h short = pure-Reads tt
    times-Reads (cons f fs) fuel (h, hs) short =
        >>=-Reads (check pf fuel) _ (encode f) (encode_items fs) tt tt
          (check-Reads f fuel h (omega (arith, length-append (encode f) (encode_items fs))))
          (times-Reads fs fuel hs (omega (arith, length-append (encode f) (encode_items fs))))

  -- A strict prefix of a frame on the wire is incomplete: neither an error nor a shorter frame.
  pub check-prefix :
      (f : Frame) (pre post : Bytes) (fuel : ℕ)
      → IsCarried f
      → encode f ≡ pre ++ post
      → 0 < length post
      → length pre < fuel
      → check pf fuel (cursor 0 pre) ≡ err incomplete
  check-prefix f pre post fuel h e pos short =
      found (check pf fuel (cursor 0 pre))
        (check-Grows pf fuel more_fuel (omega arith) (cursor 0 pre) post)
        (check-Safe pf fuel (cursor 0 pre) short)
    where
      more_fuel : ℕ
      more_fuel = fuel + suc (length (encode f))

      whole :
          check pf more_fuel (cursor 0 (pre ++ post)) ≡ ok (tt, cursor (0 + length (encode f)) [])
      whole =
          let read = check-Reads f more_fuel h (omega arith) 0 [] in
          rw (← e) (rw append-nil at read)

      found :
          (r : Outcome Error (Unit {0} × Cursor))
          → Persists post r (check pf more_fuel (cursor 0 (pre ++ post)))
          → Safe {A = Unit {0} × Cursor} (λ (a, d). Consumes (cursor 0 pre) d) r
          → r ≡ err incomplete
      found (ok (a, d)) k s =
          let ends : d.rest ++ post ≡ [] = ground (arith, k, whole) in
          absurd (omega (arith, ap length ends, length-append d.rest post))
      found (err incomplete) k s = refl
      found (err (other m)) k s = cc (k, whole)
      found panic k s = absurd s
      found out_of_fuel k s = absurd s

  -- A frame's wire format at the front of a buffer, whatever follows it: with one unit of fuel
  -- more than its length `check` accepts exactly its bytes, and `parse` reads the same frame from
  -- exactly the same bytes.
  pub decode-encode :
      (f : Frame) (fuel : ℕ) (more : Bytes)
      → IsCarried f
      → length (encode f) < fuel
      → (check pf fuel (cursor 0 (encode f ++ more)) ≡ ok (tt, cursor (0 + length (encode f)) more))
        × (decode pf fuel (cursor 0 (encode f ++ more))
            ≡ ok (f, cursor (0 + length (encode f)) more))
  decode-encode f fuel more h short =
      (check-Reads f fuel h short 0 more, decode-Reads pf f fuel h short 0 more)
