-- ===== src/Frame/Local.antt =====
-- What a reader finds does not change when more bytes arrive: only `incomplete` may.
use tokioconf_2026_workshop.Base.{
  ℕ, zero, suc, ◌+◌, ◌≤◌, ◌≡◌, refl, inl, inr, Bool, true, false, Option, none, some, [], ◌∷◌, ◌++◌,
  arith, Bytes, ltb, ltb-false, ◌==◌, if◌then◌else◌, Outcome, ok, err, panic, out_of_fuel, length,
  length-append, drop-append, Bool-cases, Option-cases, and_then,
}
use tokioconf_2026_workshop.Frame.{Error, incomplete, other}
use tokioconf_2026_workshop.Frame.Cursor.{
  Cursor, Reader, pure, ◌>>=◌, peek_byte, peek_u8, get_byte, get_u8, skip, split_line, take_line,
  get_line, decimal_of, get_decimal,
}
use tokioconf_2026_workshop.Frame.Check.{times, plus_two, check_bulk, check_type, check}
use tokioconf_2026_workshop.Std.Platform.{Platform}

-- The cursor, once `more` has arrived behind the buffer.
abbrev pub extend : Cursor → Bytes → Cursor
extend c more = record { pos = c.pos; rest = c.rest ++ more }

-- A value or a malformed frame is found again; the value with the new bytes left behind it.
abbrev pub Persists {ℓ} :
    {A : Type ℓ} → Bytes → Outcome Error (A × Cursor) → Outcome Error (A × Cursor) → Type ℓ
Persists more (ok (a, c)) r = r ≡ ok (a, extend c more)
Persists more (err incomplete) r = Unit {ℓ}
Persists more (err (other m)) r = r ≡ err (other m)
Persists more panic r = Unit {ℓ}
Persists more out_of_fuel r = Unit {ℓ}

-- `q` finds what `p` finds, with more bytes behind the buffer.
abbrev pub Grows {ℓ} : {A : Type ℓ} → Reader A → Reader A → Type ℓ
Grows p q = (c : Cursor) (more : Bytes) → Persists more (p c) (q (extend c more))

abbrev pub IsLocal {ℓ} : {A : Type ℓ} → Reader A → Type ℓ
IsLocal p = Grows p p

>>=-Persists {ℓ κ} :
    {A : Type ℓ} {B : Type κ} (f g : A → Reader B) (more : Bytes)
    (r r' : Outcome Error (A × Cursor))
    → ((a : A) → Grows (f a) (g a))
    → Persists more r r'
    → Persists more (and_then r λ (a, c). f a c) (and_then r' λ (a, c). g a c)
>>=-Persists f g more (ok (a, c)) r' hf h = rw h (hf a c more)
>>=-Persists f g more (err incomplete) r' hf h = tt
>>=-Persists f g more (err (other m)) r' hf h = rw h
>>=-Persists f g more panic r' hf h = tt
>>=-Persists f g more out_of_fuel r' hf h = tt

>>=-Grows {ℓ κ} :
    {A : Type ℓ} {B : Type κ} (p q : Reader A) (f g : A → Reader B)
    → Grows p q
    → ((a : A) → Grows (f a) (g a))
    → Grows (p >>= f) (q >>= g)
>>=-Grows p q f g hp hf c more = >>=-Persists f g more (p c) (q (extend c more)) hf (hp c more)

>>=-IsLocal {ℓ κ} :
    {A : Type ℓ} {B : Type κ} (p : Reader A) (f : A → Reader B)
    → IsLocal p
    → ((a : A) → IsLocal (f a))
    → IsLocal (p >>= f)
>>=-IsLocal p f = >>=-Grows p p f f

if-Grows {ℓ} :
    {A : Type ℓ} (b : Bool) (p q p' q' : Reader A)
    → Grows p p'
    → Grows q q'
    → Grows (if b then p else q) (if b then p' else q')
if-Grows true p q p' q' hp hq = hp
if-Grows false p q p' q' hp hq = hq

pure-IsLocal {ℓ} : {A : Type ℓ} (a : A) → IsLocal (pure a)
pure-IsLocal a c more = refl

get_byte-Persists :
    (s more : Bytes) (pos : ℕ)
    → Persists more
        (get_byte s (record { pos = pos; rest = s }))
        (get_byte (s ++ more) (record { pos = pos; rest = s ++ more }))
unfolding get_byte
get_byte-Persists [] more pos = tt
get_byte-Persists (b ∷ s) more pos = refl

get_u8-IsLocal : IsLocal get_u8
unfolding get_u8
get_u8-IsLocal c more = get_byte-Persists c.rest more c.pos

peek_byte-Persists :
    (s more : Bytes) (pos : ℕ)
    → Persists more
        (peek_byte s (record { pos = pos; rest = s }))
        (peek_byte (s ++ more) (record { pos = pos; rest = s ++ more }))
unfolding peek_byte
peek_byte-Persists [] more pos = tt
peek_byte-Persists (b ∷ s) more pos = refl

peek_u8-IsLocal : IsLocal peek_u8
unfolding peek_u8
peek_u8-IsLocal c more = peek_byte-Persists c.rest more c.pos

skip-IsLocal : (n : ℕ) → IsLocal (skip n)
unfolding skip
skip-IsLocal n c more = elim (Bool-cases (ltb (length c.rest) n)) [
  | inl short ↦ rw short tt
  | inr long ↦
      let fits : n ≤ length c.rest = ground arith in
      let still =
        ltb-false (length (c.rest ++ more)) n (omega (arith, length-append c.rest more)) in
      rw (long, still, drop-append n c.rest more fits)
]

pub split_line-append :
    (s more : Bytes) {found : Bytes × Bytes}
    → split_line s ≡ some found
    → split_line (s ++ more) ≡ some (found.0, found.1 ++ more)
unfolding split_line
split_line-append [] more h = ground arith
split_line-append (a ∷ []) more h = ground arith
split_line-append (a ∷ b ∷ s) more h = elim (Option-cases (split_line (b ∷ s))) [
  | inl none_left ↦ ground arith
  | inr (found', e) ↦ let ih = split_line-append (b ∷ s) more e in ground arith
]

take_line-Persists :
    (pos : ℕ) (s more : Bytes)
    → Persists more
        (take_line (split_line s) (record { pos = pos; rest = s }))
        (take_line (split_line (s ++ more)) (record { pos = pos; rest = s ++ more }))
unfolding take_line
take_line-Persists pos s more = elim (Option-cases (split_line s)) [
  | inl e ↦ rw e tt
  | inr (found, e) ↦ rw (e, split_line-append s more e) refl
]

get_line-IsLocal : IsLocal get_line
unfolding get_line
get_line-IsLocal c more = elim (Bool-cases (c.pos + length c.rest == 0)) [
  | inl e ↦ rw e tt
  | inr e ↦
      let e' : (c.pos + length (c.rest ++ more) == 0) ≡ false =
        ground (arith, length-append c.rest more) in
      rw (e, e') (take_line-Persists c.pos c.rest more)
]

decimal_of-IsLocal : (o : Option ℕ) → IsLocal (decimal_of o)
unfolding decimal_of
decimal_of-IsLocal none c more = refl
decimal_of-IsLocal (some n) c more = refl

times-Grows :
    (body body' : Reader (Unit {0})) (n : ℕ)
    → Grows body body'
    → Grows (times body n) (times body' n)
unfolding times
times-Grows body body' zero h = pure-IsLocal tt
times-Grows body body' (suc n) h =
    >>=-Grows body body' (λ _. times body n) (λ _. times body' n) h
      (λ _. times-Grows body body' n h)

module _ (pf : Platform) where
  get_decimal-IsLocal : IsLocal (get_decimal pf)
  unfolding get_decimal
  get_decimal-IsLocal =
      >>=-IsLocal get_line (λ line. decimal_of (pf.atoi line)) get_line-IsLocal
        (λ line. decimal_of-IsLocal (pf.atoi line))

  check_bulk-IsLocal : (b : ℕ) → IsLocal (check_bulk pf b)
  unfolding check_bulk
  check_bulk-IsLocal b = if-Grows (b == b'-') _ _ _ _ (skip-IsLocal 4) (
      >>=-IsLocal (get_decimal pf) (λ len. skip (plus_two len)) get_decimal-IsLocal
        (λ len. skip-IsLocal (plus_two len)))

  then_unit : {A : Type 0} (p : Reader A) → IsLocal p → IsLocal {0} (p >>= λ _. pure (tt {0}))
  then_unit p h = >>=-IsLocal p (λ _. pure tt) h (λ _. pure-IsLocal tt)

  check_type-Grows :
      (nested nested' : Reader (Unit {0}))
      → Grows nested nested'
      → (b : ℕ) → Grows (check_type pf nested b) (check_type pf nested' b)
  unfolding check_type
  check_type-Grows nested nested' h b =
      if-Grows (b == b'+') _ _ _ _ (then_unit get_line get_line-IsLocal) (
        if-Grows (b == b'-') _ _ _ _ (then_unit get_line get_line-IsLocal) (
          if-Grows (b == b':') _ _ _ _ (then_unit (get_decimal pf) get_decimal-IsLocal) (
            if-Grows (b == b'$') _ _ _ _
              (>>=-IsLocal peek_u8 (check_bulk pf) peek_u8-IsLocal check_bulk-IsLocal)
              (if-Grows (b == b'*') _ _ _ _
                (>>=-Grows (get_decimal pf) (get_decimal pf) (times nested) (times nested')
                  get_decimal-IsLocal (λ len. times-Grows nested nested' len h))
                (λ c more. refl)))))

  pub check-Grows : (f k : ℕ) → f ≤ k → Grows (check pf f) (check pf k)
  unfolding check
  check-Grows zero k h c more = tt
  check-Grows (suc f) zero h c more = absurd (omega arith)
  check-Grows (suc f) (suc k) h c more =
      >>=-Grows get_u8 get_u8 (check_type pf (check pf f)) (check_type pf (check pf k))
        get_u8-IsLocal (check_type-Grows (check pf f) (check pf k) (check-Grows f k (omega arith)))
        c more

  -- More bytes behind the buffer, and more fuel, change neither a complete frame nor its end, which
  -- leaves the new bytes behind it, nor a protocol error.
  pub check-Persists :
      (f k : ℕ) (c : Cursor) (more : Bytes)
      → f ≤ k
      → Persists more (check pf f c) (check pf k (extend c more))
  check-Persists f k c more h = check-Grows f k h c more
