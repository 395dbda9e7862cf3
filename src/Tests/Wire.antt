-- ===== src/Tests/Wire.antt =====
-- Frames and connections at concrete inputs.
use mathlib.Core.List.{flatten}
use tokioconf_2026_workshop.Base.{
  ◌+◌, ◌≡◌, refl, some, List, [], ◌∷◌, ◌++◌, map, arith, Bytes, codes, ok, err, panic, length,
}
use tokioconf_2026_workshop.Connection.{
  fuel, parse_frame, Connection, write_frame, read_frame, received, done,
}
use tokioconf_2026_workshop.Connection.Exact.{parse_frame-exact}
use tokioconf_2026_workshop.Connection.Overflow.{parse_frame-overflow}
use tokioconf_2026_workshop.Connection.Read.{read_frame-chunks, parse_frame-encode}
use tokioconf_2026_workshop.Connection.Write.{write_frame-encode}
use tokioconf_2026_workshop.Frame.{Frame, bulk, null, array, nil, cons, incomplete, size}
use tokioconf_2026_workshop.Frame.Check.{check}
use tokioconf_2026_workshop.Frame.Complete.{decode-encode, check-prefix}
use tokioconf_2026_workshop.Frame.Decode.{decode}
use tokioconf_2026_workshop.Frame.Local.{Persists, extend, check-Persists}
use tokioconf_2026_workshop.Frame.Reads.{cursor}
use tokioconf_2026_workshop.Frame.Total.{Safe, Consumes, check-Safe}
use tokioconf_2026_workshop.Frame.Wire.{crlf, encode, line}
use tokioconf_2026_workshop.Std.Decimal.{decimal}
use tokioconf_2026_workshop.Std.Reference.{reference}

abbrev hi : Frame
hi = bulk (codes "hi")

abbrev pair : Frame
pair = array (cons hi (cons null nil))

abbrev first_chunk : Bytes
first_chunk = codes "$2" ++ 13 ∷ []

abbrev second_chunk : Bytes
second_chunk = 10 ∷ codes "hi" ++ (13 ∷ 10 ∷ codes "+O")

abbrev fresh : Connection
fresh = record { stream = []; buffer = [] }

arrives : fresh.buffer ++ flatten (first_chunk ∷ second_chunk ∷ []) ≡ encode hi ++ codes "+O"
unfolding flatten encode decimal
arrives = refl

read_frame-chunks_example :
    (left : Bytes) × (later : List Bytes) × (read_frame reference fresh
        (map received (first_chunk ∷ second_chunk ∷ []))
      ≡ done (ok (some hi, record { stream = []; buffer = left })) (map received later))
    × (left ++ flatten later ≡ codes "+O")
read_frame-chunks_example =
    read_frame-chunks reference hi (first_chunk ∷ second_chunk ∷ []) fresh (codes "+O")
      (omega arith) (omega arith) arrives

pair_short : length (encode pair) ≡ 17
unfolding encode decimal size
pair_short = refl

pair_is_carried : size (cons hi (cons null nil)) ≡ 2
unfolding size
pair_is_carried = refl

decode-encode_example :
    (check reference 18 (cursor 0 (encode pair ++ codes "x"))
      ≡ ok (tt, cursor (0 + length (encode pair)) (codes "x")))
    × (decode reference 18 (cursor 0 (encode pair ++ codes "x"))
        ≡ ok (pair, cursor (0 + length (encode pair)) (codes "x")))
decode-encode_example =
    decode-encode reference pair 18 (codes "x")
      (omega (arith, pair_is_carried), (omega arith, (tt, tt))) (omega (arith, pair_short))

hi_cut : encode hi ≡ first_chunk ++ (10 ∷ codes "hi" ++ crlf)
unfolding encode decimal
hi_cut = refl

check-prefix_example : check reference 4 (cursor 0 first_chunk) ≡ err incomplete
check-prefix_example =
    check-prefix reference hi first_chunk (10 ∷ codes "hi" ++ crlf) 4 (omega arith) hi_cut
      (omega arith) (omega arith)

check-Persists_example :
    Persists
      (codes "+O")
      (check reference 9 (cursor 0 (encode hi)))
      (check reference 12 (extend (cursor 0 (encode hi)) (codes "+O")))
check-Persists_example =
    check-Persists reference 9 12 (cursor 0 (encode hi)) (codes "+O") (omega arith)

check-Safe_example :
    Safe (λ (a, d). Consumes (cursor 0 (codes "*1")) d) (check reference 3 (cursor 0 (codes "*1")))
check-Safe_example = check-Safe reference 3 (cursor 0 (codes "*1")) (omega arith)

write_frame-encode_example :
    write_frame pair fresh ≡ ok (record { stream = [] ++ encode pair; buffer = [] })
write_frame-encode_example =
    write_frame-encode pair fresh (omega (arith, pair_is_carried), (omega arith, (tt, tt)))

nested_size : size (cons null (cons (array nil) nil)) ≡ 2
unfolding size
nested_size = refl

-- The line of a bulk string two below 2 ^ 64, and one byte of it.
abbrev huge : Connection
huge = record { stream = []; buffer = b'$' ∷ (line (decimal 18446744073709551614) ++ codes "x") }

parse_frame-overflow_example :
    (check reference (fuel huge) (cursor 0 huge.buffer)
      ≡ ok (tt, cursor (length (b'$' ∷ (line (decimal 18446744073709551614) ++ []))) (codes "x")))
    × (parse_frame reference huge ≡ panic)
parse_frame-overflow_example =
    parse_frame-overflow reference 18446744073709551614 [] (codes "x") huge (omega arith)
      (omega arith) (omega arith) refl

abbrev whole_hi : Connection
whole_hi = record { stream = []; buffer = encode hi ++ codes "+O" }

parse_frame-exact_example :
    (used : Bytes) × (whole_hi.buffer ≡ used ++ codes "+O")
    × ([] ≡ whole_hi.stream)
    × (decode reference (fuel whole_hi) (cursor 0 whole_hi.buffer)
        ≡ ok (hi, cursor (length used) (codes "+O")))
parse_frame-exact_example =
    parse_frame-exact reference whole_hi (record { stream = []; buffer = codes "+O" }) hi
      (parse_frame-encode reference hi whole_hi (codes "+O") (omega arith) refl)
