-- ===== src/Frame/Agree.antt =====
-- `Frame::check` and `Frame::parse` end at the same place.
use tokioconf_2026_workshop.Base.{
  ℕ, zero, suc, ◌+◌, ◌≡◌, refl, ap, inl, inr, Bool, true, false, ◌∷◌, ◌++◌, arith, Bytes, codes,
  ltb, ◌==◌, same, same→eq, if◌then◌else◌, Outcome, ok, err, panic, out_of_fuel, length, Bool-cases,
  Option-cases, and_then,
}
use tokioconf_2026_workshop.Frame.{Frame, simple, error, array, cons, Error}
use tokioconf_2026_workshop.Frame.Check.{times, plus_two, check_bulk, check_type, check}
use tokioconf_2026_workshop.Frame.Cursor.{
  Cursor, Reader, pure, ◌>>=◌, peek_u8, get_u8, skip, get_line, get_decimal, split_line, take_line,
  advance, cr, lf,
}
use tokioconf_2026_workshop.Frame.Decode.{
  get_string, slice, require, collect, get_null, get_bulk, decode_bulk, decode_type, decode,
}
use tokioconf_2026_workshop.Frame.Total.{split_line_sound}
use tokioconf_2026_workshop.Std.Platform.{Platform}
use tokioconf_2026_workshop.Std.Utf8.{is_utf8}

-- Two outcomes that, where both are values, leave the same cursor.
abbrev pub Ends {ℓ κ} :
    {A : Type ℓ} {B : Type κ} → Outcome Error (A × Cursor) → Outcome Error (B × Cursor) → Type 0
Ends (ok (a, d)) (ok (b, d')) = d ≡ d'
Ends (ok (a, d)) (err e) = Unit
Ends (ok (a, d)) panic = Unit
Ends (ok (a, d)) out_of_fuel = Unit
Ends (err e) r = Unit
Ends panic r = Unit
Ends out_of_fuel r = Unit

abbrev pub Agrees {ℓ κ} : {A : Type ℓ} {B : Type κ} → Reader A → Reader B → Type 0
Agrees p q = (c : Cursor) → Ends (p c) (q c)

module _ {ℓ κ} {A : Type ℓ} where
  Ends-err : (B : Type κ) (r : Outcome Error (A × Cursor)) (e : Error) → Ends {B = B} r (err e)
  Ends-err B (ok (a, d)) e = tt
  Ends-err B (err m) e = tt
  Ends-err B panic e = tt
  Ends-err B out_of_fuel e = tt

  Ends-panic : (B : Type κ) (r : Outcome Error (A × Cursor)) → Ends {B = B} r panic
  Ends-panic B (ok (a, d)) = tt
  Ends-panic B (err m) = tt
  Ends-panic B panic = tt
  Ends-panic B out_of_fuel = tt

  Ends-out_of_fuel : (B : Type κ) (r : Outcome Error (A × Cursor)) → Ends {B = B} r out_of_fuel
  Ends-out_of_fuel B (ok (a, d)) = tt
  Ends-out_of_fuel B (err m) = tt
  Ends-out_of_fuel B panic = tt
  Ends-out_of_fuel B out_of_fuel = tt

module _ {ℓ κ} {A : Type ℓ} {B : Type κ} where
  if-Agrees :
      (b : Bool) (p p' : Reader A) (q q' : Reader B)
      → Agrees p q
      → Agrees p' q'
      → Agrees (if b then p else p') (if b then q else q')
  if-Agrees true p p' q q' h h' = h
  if-Agrees false p p' q q' h h' = h'

module _ {ℓ κ μ ν} {A : Type ℓ} {B : Type κ} {A' : Type μ} {B' : Type ν} where
  and_then-Ends :
      (r : Outcome Error (A × Cursor)) (r' : Outcome Error (B × Cursor)) (f : A → Reader A')
      (g : B → Reader B')
      → Ends r r'
      → ((a : A) (b : B) → Agrees (f a) (g b))
      → Ends (and_then r λ (a, c). f a c) (and_then r' λ (b, c). g b c)
  and_then-Ends (ok (a, d)) (ok (b, d')) f g h k = rw (← h) (k a b d)
  and_then-Ends (ok (a, d)) (err e) f g h k = Ends-err B' (f a d) e
  and_then-Ends (ok (a, d)) panic f g h k = Ends-panic B' (f a d)
  and_then-Ends (ok (a, d)) out_of_fuel f g h k = Ends-out_of_fuel B' (f a d)
  and_then-Ends (err e) r' f g h k = tt
  and_then-Ends panic r' f g h k = tt
  and_then-Ends out_of_fuel r' f g h k = tt

  >>=-Agrees :
      (p : Reader A) (q : Reader B) (f : A → Reader A') (g : B → Reader B')
      → Agrees p q
      → ((a : A) (b : B) → Agrees (f a) (g b))
      → Agrees (p >>= f) (q >>= g)
  >>=-Agrees p q f g h k c = and_then-Ends (p c) (q c) f g (h c) k

-- The same step first.
module _ {ℓ κ μ} {A : Type ℓ} {B : Type κ} {B' : Type μ} where
  then-Ends :
      (r : Outcome Error (A × Cursor)) (f : A → Reader B) (g : A → Reader B')
      → ((a : A) → Agrees (f a) (g a))
      → Ends (and_then r λ (a, c). f a c) (and_then r λ (a, c). g a c)
  then-Ends (ok (a, d)) f g k = k a d
  then-Ends (err e) f g k = tt
  then-Ends panic f g k = tt
  then-Ends out_of_fuel f g k = tt

  then-Agrees :
      (p : Reader A) (f : A → Reader B) (g : A → Reader B')
      → ((a : A) → Agrees (f a) (g a))
      → Agrees (p >>= f) (p >>= g)
  then-Agrees p f g k c = then-Ends (p c) f g k

-- A pure step behind either side.
module _ {ℓ κ μ} {A : Type ℓ} {B : Type κ} {B' : Type μ} where
  pure_right-Ends :
      (r : Outcome Error (A × Cursor)) (r' : Outcome Error (B × Cursor)) (g : B → B')
      → Ends r r'
      → Ends r (and_then r' λ (b, c). pure (g b) c)
  pure_right-Ends r (ok (b, d')) g h = same_cursor r h
    where
      same_cursor : (s : Outcome Error (A × Cursor)) → Ends s (ok (b, d')) → Ends s (ok (g b, d'))
      same_cursor (ok (a, d)) h = h
      same_cursor (err e) h = tt
      same_cursor panic h = tt
      same_cursor out_of_fuel h = tt
  pure_right-Ends r (err e) g h = Ends-err B' r e
  pure_right-Ends r panic g h = Ends-panic B' r
  pure_right-Ends r out_of_fuel g h = Ends-out_of_fuel B' r

times-Agrees :
    (p : Reader (Unit {0})) (q : Reader Frame) (n : ℕ)
    → Agrees p q
    → Agrees (times p n) (collect q n)
unfolding times collect
times-Agrees p q zero h c = refl
times-Agrees p q (suc n) h c =
    >>=-Agrees p q (λ _. times p n) (λ f. collect q n >>= λ fs. pure (cons f fs)) h
      (λ a f c'. pure_right-Ends (times p n c') (collect q n c') (cons f) (times-Agrees p q n h c'))
      c

skip-Agrees : (len : ℕ) → Agrees (skip (plus_two len)) (get_bulk len)
unfolding skip get_bulk require slice
skip-Agrees len c = elim (Bool-cases (ltb (length c.rest) (plus_two len))) [
  | inl e ↦ rw e tt
  | inr e ↦ elim (Bool-cases (ltb (length c.rest) len)) [
    | inl e' ↦ rw (e, e') tt
    | inr e' ↦ rw (e, e', e) refl
  ]
]

string-Agrees : Agrees {0, 0} (get_line >>= λ _. pure tt) get_string
unfolding get_string
string-Agrees =
    then-Agrees get_line _ _
      λ line c. elim (Bool-cases (is_utf8 line)) [ inl e ↦ rw e refl | inr e ↦ rw e tt ]

-- The four bytes that `check` skips are the line of a null frame.
null-Agrees : Agrees (skip 4) get_null
unfolding skip get_null get_line take_line
null-Agrees c = elim (Bool-cases (ltb (length c.rest) 4)) [
  | inl short ↦ rw short tt
  | inr full ↦
      let some_left : (c.pos + length c.rest == 0) ≡ false = ground arith in
      elim (Option-cases (split_line c.rest)) [
        | inl none_found ↦ rw (full, some_left, none_found) tt
        | inr ((line, after), found) ↦ elim (Bool-cases (same line (codes "-1"))) [
          | inl minus_one ↦
              rw (full, some_left, found, minus_one)
                (ends line after (same→eq line _ minus_one) (split_line_sound c.rest found))
          | inr another ↦ rw (full, some_left, found, another) tt
        ]
      ]
]
  where
    ends :
        (line after : Bytes)
        → line ≡ codes "-1"
        → c.rest ≡ line ++ (cr ∷ lf ∷ after)
        → advance 4 c ≡ record { pos = c.pos + length line + 2; rest = after }
    ends line after e e' = rw (e', e) (ap (λ n. record { pos = n; rest = after }) (omega arith))

module _ (pf : Platform) where
  bulk-Agrees : (b : ℕ) → Agrees (check_bulk pf b) (decode_bulk pf b)
  unfolding check_bulk decode_bulk
  bulk-Agrees b =
      if-Agrees (b == b'-') _ _ _ _ null-Agrees
        (then-Agrees (get_decimal pf) (λ len. skip (plus_two len)) get_bulk skip-Agrees)

  type-Agrees :
      (nested : Reader (Unit {0})) (item : Reader Frame) (b : ℕ)
      → Agrees nested item
      → Agrees (check_type pf nested b) (decode_type pf item b)
  unfolding check_type decode_type
  type-Agrees nested item b h =
      if-Agrees (b == b'+') _ _ _ _ (λ c. pure_right-Ends _ _ simple (string-Agrees c))
        (if-Agrees (b == b'-') _ _ _ _ (λ c. pure_right-Ends _ _ error (string-Agrees c))
          (if-Agrees (b == b':') _ _ _ _ (then-Agrees (get_decimal pf) _ _ λ n c. refl) (
            if-Agrees (b == b'$') _ _ _ _ (then-Agrees peek_u8 _ _ bulk-Agrees) (
              if-Agrees (b == b'*') _ _ _ _
                (then-Agrees (get_decimal pf) _ _ λ n c.
                  pure_right-Ends (times nested n c) (collect item n c) array
                    (times-Agrees nested item n h c))
                (λ c. tt)))))

  -- Where `check` accepts a buffer and `parse` reads a frame from it, both end at the same place.
  pub check-Agrees : (fuel : ℕ) → Agrees (check pf fuel) (decode pf fuel)
  unfolding check decode
  check-Agrees zero c = tt
  check-Agrees (suc fuel) c =
      then-Agrees get_u8 _ _
        (λ b. type-Agrees (check pf fuel) (decode pf fuel) b (check-Agrees fuel)) c
