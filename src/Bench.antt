-- ===== src/Bench.antt =====
-- redis-bench/src/main.rs: the batches of commands that the benchmark sends, and how it finds the ends of
-- the responses.
pub mod Responses
pub mod Batch
pub mod Loop
pub mod Run
use tokioconf_2026_workshop.Base.{
  ℕ, zero, suc, ◌+◌, ◌-◌, ◌*◌, ◌^◌, Bool, true, false, ◌&&◌, ◌||◌, Option, none, some, List, [],
  ◌∷◌, ◌++◌, Bytes, codes, ltb, leb, ◌==◌, same, if◌then◌else◌, Outcome, ok, err, panic,
  out_of_fuel, and_then, length, take, drop,
}
use mathlib.Core.Option
use tokioconf_2026_workshop.Std.Decimal.{decimal}
use tokioconf_2026_workshop.Std.Utf8.{is_utf8}

-- `None`: the response is not there yet, or is not understood.
abbrev pub Parsed : Type 0 → Type 0
Parsed A = Outcome (Unit {0}) A

-- The first position of "\r\n".
unfoldable pub find_crlf : Bytes → Option ℕ
find_crlf [] = none
find_crlf (a ∷ []) = none
find_crlf (a ∷ b ∷ s) =
    if (a == 13) && (b == 10) then some 0 else Option.map suc (find_crlf (b ∷ s))

abbrev pub or_none : {A : Type 0} → Option A → Parsed A
or_none none = err tt
or_none (some a) = ok a

-- An `i64`, as far as the code looks at it.
pub data Number : Type 0 where
  negative : Number
  natural : ℕ → Number

-- Digits, the most significant first, behind what was read before.
unfoldable pub digits_from : ℕ → Bytes → Option ℕ
digits_from n [] = some n
digits_from n (d ∷ ds) =
    let rest = digits_from (n * 10 + (d - 48)) ds in if leb 48 d && leb d 57 then rest else none

unfoldable pub digits : Bytes → Option ℕ
unfolding digits_from
digits [] = none
digits (d ∷ ds) = digits_from 0 (d ∷ ds)

unfoldable pub positive : ℕ → Option Number
positive n = if ltb n (2 ^ 63) then some (natural n) else none

unfoldable pub negated : ℕ → Option Number
negated n = if n == 0 then some (natural 0) else if leb n (2 ^ 63) then some negative else none

-- `str::parse::<i64>`: an optional sign, then digits, in range.
unfoldable pub parse_i64 : Bytes → Option Number
unfolding digits positive negated
parse_i64 [] = none
parse_i64 (c ∷ s) =
    if c == b'-'
    then Option.bind (digits s) negated
    else if c == b'+'
    then Option.bind (digits s) positive
    else Option.bind (digits (c ∷ s)) positive

-- `str::from_utf8(&buf[1..crlf]).ok()?.parse().ok()?`
unfoldable pub number_at : Bytes → ℕ → Parsed Number
unfolding parse_i64
number_at buf crlf =
    let s = take (crlf - 1) (drop 1 buf) in if is_utf8 s then or_none (parse_i64 s) else err tt

unfoldable pub bulk_end : Bytes → ℕ → Number → Parsed ℕ
bulk_end buf crlf negative = ok (crlf + 2)
bulk_end buf crlf (natural len) =
    if leb (crlf + 2 + len + 2) (length buf) then ok (crlf + 2 + len + 2) else err tt

-- `for _ in 0..count`
unfoldable pub items : (Bytes → Parsed ℕ) → Bytes → ℕ → ℕ → Parsed ℕ
items nested buf zero pos = ok pos
items nested buf (suc n) pos =
    and_then (nested (drop pos buf)) λ used. items nested buf n (pos + used)

unfoldable pub array_end : (Bytes → Parsed ℕ) → Bytes → ℕ → Number → Parsed ℕ
unfolding items
array_end nested buf crlf negative = ok (crlf + 2)
array_end nested buf crlf (natural count) = items nested buf count (crlf + 2)

-- The match on the first byte.
unfoldable pub response_end : (Bytes → Parsed ℕ) → ℕ → Bytes → Parsed ℕ
unfolding bulk_end array_end number_at find_crlf
response_end nested b buf =
    if (b == b'+') || ((b == b'-') || (b == b':'))
    then and_then (or_none (find_crlf buf)) (λ crlf. ok (crlf + 2))
    else if b == b'$'
    then and_then (or_none (find_crlf buf))
        (λ crlf. and_then (number_at buf crlf) (bulk_end buf crlf))
    else if b == b'*'
    then and_then (or_none (find_crlf buf))
        (λ crlf. and_then (number_at buf crlf) (array_end nested buf crlf))
    else panic

-- Each call looks at a byte of its own, so that the bytes bound the depth.
unfoldable pub try_parse_response : ℕ → Bytes → Parsed ℕ
unfolding response_end
try_parse_response zero buf = out_of_fuel
try_parse_response (suc f) [] = err tt
try_parse_response (suc f) (b ∷ s) = response_end (try_parse_response f) b (b ∷ s)

-- What the loop over the received bytes leaves: the responses still to come, and the bytes.
unfoldable pub parse_responses : ℕ → Bytes → Parsed (ℕ × Bytes)
unfolding try_parse_response
parse_responses zero buf = ok (0, buf)
parse_responses (suc n) [] = ok (suc n, [])
parse_responses (suc n) (b ∷ s) = elim (try_parse_response (suc (length (b ∷ s))) (b ∷ s)) [
  | ok used ↦ parse_responses n (drop used (b ∷ s))
  | err _ ↦ ok (suc n, b ∷ s)
  | panic ↦ panic
  | out_of_fuel ↦ out_of_fuel
]

pub data Phase : Type 0 where
  set : Phase
  get : Phase

abbrev crlf : Bytes
crlf = 13 ∷ 10 ∷ []

-- `format!("k:{}:{}", conn_id, i)`
unfoldable pub key_of : ℕ → ℕ → Bytes
key_of conn_id i = codes "k:" ++ (decimal conn_id ++ (codes ":" ++ decimal i))

-- What one round of the loop appends.
unfoldable pub command_bytes : Phase → Bytes → Bytes → Bytes
command_bytes set key value =
    codes "*3"
    ++ (crlf
        ++ (codes "$3"
            ++ (crlf
                ++ (codes "SET"
                    ++ (crlf
                        ++ (codes "$"
                            ++ (decimal (length key)
                                ++ (crlf
                                    ++ (key
                                        ++ (crlf
                                            ++ (codes "$"
                                                ++ (decimal (length value)
                                                    ++ (crlf ++ (value ++ crlf))))))))))))))
command_bytes get key value =
    codes "*2"
    ++ (crlf
        ++ (codes "$3"
            ++ (crlf
                ++ (codes "GET"
                    ++ (crlf
                        ++ (codes "$" ++ (decimal (length key) ++ (crlf ++ (key ++ crlf)))))))))

-- `for i in 0..count`, with `i` rounds done and `n` to go.
unfoldable pub batch_from : Phase → ℕ → ℕ → ℕ → Bytes → Bytes
unfolding key_of command_bytes
batch_from phase conn_id i zero value = []
batch_from phase conn_id i (suc n) value =
    command_bytes phase (key_of conn_id i) value ++ batch_from phase conn_id (i + 1) n value

unfoldable pub build_batch : Phase → ℕ → ℕ → Bytes → Bytes
unfolding batch_from
build_batch phase conn_id count value = batch_from phase conn_id 0 count value
