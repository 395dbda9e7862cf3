-- ===== src/Bench/Responses.antt =====
-- The benchmark finds the end of every response that the server's wire format has.
use tokioconf_2026_workshop.Base.{
  ℕ, zero, suc, ◌+◌, ◌-◌, ◌/◌, ◌%◌, ◌^◌, ◌<◌, ◌≡◌, ◌≢◌, refl, ap, ◌∙◌, false, some, List, [], ◌∷◌,
  ◌++◌, append_assoc, arith, Bytes, ok, length, length-append, drop, drop-length, take-length, All,
  le→leb, lt→ltb, ◌==◌,
}
use mathlib.Core.Option
use native.Mathlib.Nat.{pow-suc}
use tokioconf_2026_workshop.Bench.{
  find_crlf, number_at, parse_i64, digits_from, positive, natural, negative, items, bulk_end,
  array_end, response_end, try_parse_response, parse_responses,
}
use tokioconf_2026_workshop.Bench
use tokioconf_2026_workshop.Frame.{
  Frame, Frames, simple, error, integer, bulk, null, array, nil, cons, size,
}
use tokioconf_2026_workshop.Frame.Cursor.{cr, lf}
use tokioconf_2026_workshop.Frame.Reads.{decimal-NoCrlf}
use tokioconf_2026_workshop.Frame.Wire.{crlf, line, encode, encode_items, NoCrlf}
use tokioconf_2026_workshop.Std.Decimal.{digits, decimal, IsDigit, decimal-All, length-decimal_pos}
use tokioconf_2026_workshop.Std.Utf8.{is_utf8, is_utf8-ascii, IsAscii}

-- Lengths and counts fit an `i64`.
abbrev mutual
  pub IsResponse : Frame → Type 0
  IsResponse (simple s) = NoCrlf s
  IsResponse (error s) = NoCrlf s
  IsResponse (integer n) = Unit
  IsResponse (bulk s) = length s < 2 ^ 63
  IsResponse null = Unit
  IsResponse (array fs) = (size fs < 2 ^ 63) × AreResponses fs

  pub AreResponses : Frames → Type 0
  AreResponses nil = Unit
  AreResponses (cons f fs) = IsResponse f × AreResponses fs

find_crlf-NoCrlf : (s more : Bytes) → NoCrlf s → find_crlf (s ++ (cr ∷ lf ∷ more)) ≡ some (length s)
unfolding find_crlf
find_crlf-NoCrlf [] more h = refl
find_crlf-NoCrlf (a ∷ []) more h = ground arith
find_crlf-NoCrlf (a ∷ b ∷ s) more (no_end, h) =
    let ih = find_crlf-NoCrlf (b ∷ s) more h in ground arith

-- Behind the type byte.
find_crlf-line :
    (c : ℕ) (s more : Bytes)
    → c ≢ cr
    → NoCrlf s
    → find_crlf (c ∷ (line s ++ more)) ≡ some (suc (length s))
find_crlf-line c s more ne h =
    ap (λ r. find_crlf (c ∷ r)) (append_assoc s crlf more)
    ∙ find_crlf-NoCrlf (c ∷ s) more (cons_NoCrlf s h)
  where
    cons_NoCrlf : (s : Bytes) → NoCrlf s → NoCrlf (c ∷ s)
    cons_NoCrlf [] h = tt
    cons_NoCrlf (a ∷ s) h = (λ (e, e'). absurd (ne e), h)

digits_from-digits :
    (f n : ℕ) (out : Bytes) → n < 10 ^ f → digits_from 0 (digits f n out) ≡ digits_from n out
unfolding digits_from digits
digits_from-digits zero n out h = let e : n ≡ 0 = omega arith in rw e
digits_from-digits (suc f) n out h =
    let p = pow-suc 10 f in ground (arith, p, digits_from-digits f (n / 10) ((b'0' + n % 10) ∷ out))

digits-NoSign :
    (s : Bytes) (n : ℕ)
    → 0 < length s
    → All IsDigit s
    → digits_from 0 s ≡ some n
    → n < 2 ^ 63
    → parse_i64 s ≡ some (natural n)
unfolding parse_i64 positive Option.bind
digits-NoSign [] n pos h e fits = absurd (omega arith)
digits-NoSign (c ∷ s) n pos (hc, hs) e fits =
    let minus : (c == b'-') ≡ false = ground arith in
    let plus : (c == b'+') ≡ false = ground arith in
    rw (minus, plus, e, lt→ltb n (2 ^ 63) fits) refl

parse_i64-decimal : (n : ℕ) → n < 2 ^ 63 → parse_i64 (decimal n) ≡ some (natural n)
unfolding decimal digits_from
parse_i64-decimal n h =
    digits-NoSign (decimal n) n (length-decimal_pos n) (decimal-All n)
      (digits_from-digits 39 n [] (omega arith)) h

pub All-IsAscii : (s : Bytes) → All IsDigit s → All IsAscii s
All-IsAscii [] h = tt
All-IsAscii (c ∷ s) (hc, hs) = (omega arith, All-IsAscii s hs)

number_at-decimal :
    (c n : ℕ) (more : Bytes)
    → n < 2 ^ 63
    → number_at (c ∷ (line (decimal n) ++ more)) (suc (length (decimal n))) ≡ ok (natural n)
unfolding number_at
number_at-decimal c n more h =
    let whole = append_assoc (decimal n) crlf more in
    let text = is_utf8-ascii (decimal n) (All-IsAscii (decimal n) (decimal-All n)) in
    let one : suc (length (decimal n)) - 1 ≡ length (decimal n) = omega arith in
    rw (one, whole, take-length (decimal n) (crlf ++ more), text, parse_i64-decimal n h) refl

-- The number of bytes of an item in front, and the items behind it.
items-cons :
    (nested : Bytes → Bench.Parsed ℕ) (f : Frame) (n : ℕ) (pre more : Bytes)
    → nested (encode f ++ more) ≡ ok (length (encode f))
    → items nested (pre ++ (encode f ++ more)) (suc n) (length pre)
      ≡ items nested ((pre ++ encode f) ++ more) n (length (pre ++ encode f))
unfolding items
items-cons nested f n pre more h =
    rw
      (
        drop-length pre (encode f ++ more),
        h,
        append_assoc pre (encode f) more,
        length-append pre (encode f),
      )
      refl

-- From a count or a length on.
bulk_end-line :
    (c : ℕ) (s head more : Bytes)
    → bulk_end
        (c ∷ ((head ++ (cr ∷ lf ∷ [])) ++ ((s ++ (cr ∷ lf ∷ [])) ++ more)))
        (suc (length head))
        (natural (length s))
      ≡ ok (suc (length (line head ++ line s)))
unfolding bulk_end
bulk_end-line c s head more =
    let l1 = length-append head crlf in
    let l2 = length-append s crlf in
    let l3 = length-append (head ++ crlf) ((s ++ crlf) ++ more) in
    let l4 = length-append (s ++ crlf) more in
    let l5 = length-append (head ++ crlf) (s ++ crlf) in
    rw
      (le→leb (suc (length head) + 2 + length s + 2)
        (suc (length ((head ++ crlf) ++ ((s ++ crlf) ++ more)))) (omega arith))
      (ap ok (omega arith))

null_response :
    (nested : Bytes → Bench.Parsed ℕ) (more : Bytes)
    → response_end nested b'$' (b'$' ∷ b'-' ∷ b'1' ∷ cr ∷ lf ∷ more) ≡ ok 5
unfolding response_end parse_i64 is_utf8 find_crlf number_at bulk_end digits_from Option.bind
null_response nested more = refl

mutual
  unfolding encode try_parse_response response_end array_end items bulk_end size

  try_parse-encode :
      (f : Frame) (fuel : ℕ) (more : Bytes)
      → IsResponse f
      → length (encode f) < fuel
      → try_parse_response fuel (encode f ++ more) ≡ ok (length (encode f))
  try_parse-encode f zero more h short = absurd (omega arith)
  try_parse-encode (simple s) (suc fuel) more h short =
      rw (find_crlf-line b'+' s more (omega arith) h) (ap ok (omega (arith, length-append s crlf)))
  try_parse-encode (error s) (suc fuel) more h short =
      rw (find_crlf-line b'-' s more (omega arith) h) (ap ok (omega (arith, length-append s crlf)))
  try_parse-encode (integer n) (suc fuel) more h short =
      rw (find_crlf-line b':' (decimal n) more (omega arith) (decimal-NoCrlf _ (decimal-All n)))
        (ap ok (omega (arith, length-append (decimal n) crlf)))
  try_parse-encode (bulk s) (suc fuel) more h short =
      let dec = decimal (length s) in
      rw
        (
          append_assoc (line dec) (line s) more,
          find_crlf-line b'$' dec (line s ++ more) (omega arith)
              (decimal-NoCrlf dec (decimal-All (length s))),
          number_at-decimal b'$' (length s) (line s ++ more) h,
        )
        (bulk_end-line b'$' s dec more)
  try_parse-encode null (suc fuel) more h short = null_response (try_parse_response fuel) more
  try_parse-encode (array fs) (suc fuel) more (h, hs) short =
      let dec = decimal (size fs) in
      let start : suc (length dec) + 2 ≡ length (b'*' ∷ line dec) =
        omega (arith, length-append dec crlf) in
      let all = length-append (line dec) (encode_items fs) in
      rw
        (
          append_assoc (line dec) (encode_items fs) more,
          find_crlf-line b'*' dec (encode_items fs ++ more) (omega arith)
              (decimal-NoCrlf dec (decimal-All (size fs))),
          number_at-decimal b'*' (size fs) (encode_items fs ++ more) h,
          start,
          items-encode fs fuel (b'*' ∷ line dec) more hs (omega (arith, all)),
        )
        (ap ok (omega (arith, all)))

  items-encode :
      (fs : Frames) (fuel : ℕ) (pre more : Bytes)
      → AreResponses fs
      → length (encode_items fs) < fuel
      → items (try_parse_response fuel) (pre ++ (encode_items fs ++ more)) (size fs) (length pre)
        ≡ ok (length pre + length (encode_items fs))
  items-encode nil fuel pre more h short = ap ok (omega arith)
  items-encode (cons f fs) fuel pre more (h, hs) short =
      let all = length-append (encode f) (encode_items fs) in
      ap (λ r. items (try_parse_response fuel) (pre ++ r) (suc (size fs)) (length pre))
        (append_assoc (encode f) (encode_items fs) more)
      ∙ items-cons (try_parse_response fuel) f (size fs) pre (encode_items fs ++ more)
          (try_parse-encode f fuel (encode_items fs ++ more) h (omega (arith, all)))
      ∙ items-encode fs fuel (pre ++ encode f) more hs (omega (arith, all))
      ∙ ap ok (omega (arith, all, length-append pre (encode f)))

abbrev pub stream : List Frame → Bytes
stream [] = []
stream (f ∷ fs) = encode f ++ stream fs

one_response :
    (n used : ℕ) (buf : Bytes)
    → 0 < length buf
    → try_parse_response (suc (length buf)) buf ≡ ok used
    → parse_responses (suc n) buf ≡ parse_responses n (drop used buf)
unfolding parse_responses
one_response n used [] h e = absurd (omega arith)
one_response n used (b ∷ s) h e = rw (parse_responses, e) refl

encode_pos : (f : Frame) → 0 < length (encode f)
unfolding encode
encode_pos (simple s) = omega arith
encode_pos (error s) = omega arith
encode_pos (integer n) = omega arith
encode_pos (bulk s) = omega arith
encode_pos null = omega arith
encode_pos (array fs) = omega arith

-- The frames stand at the front of the received bytes, with texts that have no line break, and
-- lengths and counts below 2 ^ 63. Each of them is counted once and taken off exactly, and what
-- follows is looked at for the other responses.
pub parse_responses-stream :
    (fs : List Frame) (n : ℕ) (more : Bytes)
    → All IsResponse fs
    → parse_responses (length fs + n) (stream fs ++ more) ≡ parse_responses n more
parse_responses-stream [] n more h = let e : 0 + n ≡ n = omega arith in rw e
parse_responses-stream (f ∷ fs) n more (h, hs) =
    let e : suc (length fs) + n ≡ suc (length fs + n) = omega arith in
    let whole = append_assoc (encode f) (stream fs) more in
    let buf = encode f ++ (stream fs ++ more) in
    let both = length-append (encode f) (stream fs ++ more) in
    let parsed =
      try_parse-encode f (suc (length buf)) (stream fs ++ more) h (omega (arith, both)) in
    let first =
      one_response (length fs + n) (length (encode f)) buf (omega (arith, both, encode_pos f))
        parsed in
    rw (e, whole)
      (first
        ∙ ap (parse_responses (length fs + n)) (drop-length (encode f) (stream fs ++ more))
        ∙ parse_responses-stream fs n more hs)
