-- ===== src/Frame/Total.antt =====
-- The scan of a frame ends, within its fuel and without a panic, and only moves forward.
use tokioconf_2026_workshop.Base.{
  ℕ, zero, suc, ◌+◌, ◌≤◌, ◌<◌, ◌≡◌, refl, sym, ap, ◌∙◌, inl, inr, Bool, true, false, Option, none,
  some, [], ◌∷◌, ◌++◌, append_assoc, arith, Bytes, ltb, ◌==◌, if◌then◌else◌, Outcome, ok, err,
  panic, out_of_fuel, length, length-append, take, Bool-cases, Option-cases, and_then,
  take-append-drop, length-take,
}
use tokioconf_2026_workshop.Frame.{Error}
use tokioconf_2026_workshop.Frame.Cursor.{
  Cursor, Reader, pure, ◌>>=◌, peek_byte, peek_u8, get_byte, get_u8, skip, split_line, take_line,
  get_line, decimal_of, get_decimal, advance, cr, lf,
}
use tokioconf_2026_workshop.Frame.Check.{times, plus_two, check_bulk, check_type, check}
use tokioconf_2026_workshop.Std.Platform.{Platform}

-- The second cursor stands behind the bytes `used`, which the first one had in front of it.
pub record Consumes (c c' : Cursor) : Type 0 where
  pub used : Bytes
  pub buffer : c.rest ≡ used ++ c'.rest
  pub position : c'.pos ≡ c.pos + length used

pub Consumes-refl : (c : Cursor) → Consumes c c
Consumes-refl c = record { used = []; buffer = refl; position = omega arith }

pub Consumes-trans : {c c' c'' : Cursor} → Consumes c c' → Consumes c' c'' → Consumes c c''
Consumes-trans {c''} h k = record {
  used = h.used ++ k.used;
  buffer = h.buffer ∙ ap (λ r. h.used ++ r) k.buffer ∙ sym (append_assoc h.used k.used c''.rest);
  position = omega (arith, h.position, k.position, length-append h.used k.used);
}

pub Consumes-length :
    {c c' : Cursor} → Consumes c c' → length c'.rest + c'.pos ≡ length c.rest + c.pos
Consumes-length {c'} h = omega (arith, ap length h.buffer, h.position, length-append h.used c'.rest)

-- An outcome in the program's terms, with `Q` of its value: neither a panic nor a lack of fuel.
abbrev pub Safe {ℓ} : {A : Type ℓ} → (A → Type 0) → Outcome Error A → Type 0
Safe Q (ok a) = Q a
Safe Q (err e) = Unit
Safe Q panic = ⊥
Safe Q out_of_fuel = ⊥

-- Behind the type byte, with less than `bound` bytes left.
abbrev pub IsSafe {ℓ} : {A : Type ℓ} → ℕ → Reader A → Type 0
IsSafe bound p =
    (c : Cursor) → 0 < c.pos → length c.rest < bound → Safe (λ (a, c'). Consumes c c') (p c)

Safe-trans {ℓ} :
    {A : Type ℓ} (c c' : Cursor) (r : Outcome Error (A × Cursor))
    → Consumes c c'
    → Safe (λ (a, d). Consumes c' d) r
    → Safe (λ (a, d). Consumes c d) r
Safe-trans c c' (ok (a, d)) h k = Consumes-trans h k
Safe-trans c c' (err e) h k = tt
Safe-trans c c' panic h k = k
Safe-trans c c' out_of_fuel h k = k

>>=-Safe {ℓ κ} :
    {A : Type ℓ} {B : Type κ} (bound : ℕ) (c : Cursor) (f : A → Reader B)
    (r : Outcome Error (A × Cursor))
    → 0 < c.pos
    → length c.rest < bound
    → ((a : A) → IsSafe bound (f a))
    → Safe (λ (a, d). Consumes c d) r
    → Safe (λ (b, d). Consumes c d) (and_then r λ (a, d). f a d)
>>=-Safe bound c f (ok (a, d)) hp hl hf h =
    let forward =
      hf a d (omega (arith, h.position)) (omega (arith, h.position, Consumes-length h)) in
    Safe-trans c d (f a d) h forward
>>=-Safe bound c f (err e) hp hl hf h = tt
>>=-Safe bound c f panic hp hl hf h = h
>>=-Safe bound c f out_of_fuel hp hl hf h = h

>>=-IsSafe {ℓ κ} :
    {A : Type ℓ} {B : Type κ} (bound : ℕ) (p : Reader A) (f : A → Reader B)
    → IsSafe bound p
    → ((a : A) → IsSafe bound (f a))
    → IsSafe bound (p >>= f)
>>=-IsSafe bound p f hp hf c pos short = >>=-Safe bound c f (p c) pos short hf (hp c pos short)

if-IsSafe {ℓ} :
    {A : Type ℓ} (bound : ℕ) (b : Bool) (p q : Reader A)
    → IsSafe bound p
    → IsSafe bound q
    → IsSafe bound (if b then p else q)
if-IsSafe bound true p q hp hq = hp
if-IsSafe bound false p q hp hq = hq

pure-IsSafe {ℓ} : {A : Type ℓ} (bound : ℕ) (a : A) → IsSafe bound (pure a)
pure-IsSafe bound a c pos short = Consumes-refl c

peek_u8-IsSafe : (bound : ℕ) → IsSafe bound peek_u8
unfolding peek_u8 peek_byte
peek_u8-IsSafe bound c pos short = go c.rest
  where
    go : (s : Bytes) → Safe (λ (a, d). Consumes c d) (peek_byte s c)
    go [] = tt
    go (b ∷ s) = Consumes-refl c

pub advance-Consumes : (n : ℕ) (c : Cursor) → n ≤ length c.rest → Consumes c (advance n c)
advance-Consumes n c h = record {
  used = take n c.rest;
  buffer = sym (take-append-drop n c.rest);
  position = omega (arith, length-take n c.rest h);
}

skip-IsSafe : (bound n : ℕ) → IsSafe bound (skip n)
unfolding skip
skip-IsSafe bound n c pos short = elim (Bool-cases (ltb (length c.rest) n)) [
  | inl e ↦ rw e tt
  | inr e ↦ rw e (advance-Consumes n c (ground arith))
]

pub split_line_sound :
    (s : Bytes) {found : Bytes × Bytes}
    → split_line s ≡ some found
    → s ≡ found.0 ++ (cr ∷ lf ∷ found.1)
unfolding split_line
split_line_sound [] h = ground arith
split_line_sound (a ∷ []) h = ground arith
split_line_sound (a ∷ b ∷ s) h = elim (Option-cases (split_line (b ∷ s))) [
  | inl e ↦ ground arith
  | inr (found', e) ↦ let ih = split_line_sound (b ∷ s) e in ground arith
]

get_line-IsSafe : (bound : ℕ) → IsSafe bound get_line
unfolding get_line take_line
get_line-IsSafe bound c pos short =
    let e : (c.pos + length c.rest == 0) ≡ false = ground arith in
    rw e (elim (Option-cases (split_line c.rest)) [
      | inl none_found ↦ rw none_found tt
      | inr (found, e') ↦ rw e' (line_Consumes found (split_line_sound c.rest e'))
    ])
  where
    line_Consumes :
        (found : Bytes × Bytes)
        → c.rest ≡ found.0 ++ (cr ∷ lf ∷ found.1)
        → Consumes c (record { pos = c.pos + length found.0 + 2; rest = found.1 })
    line_Consumes found e = record {
      used = found.0 ++ (cr ∷ lf ∷ []);
      buffer = e ∙ sym (append_assoc found.0 (cr ∷ lf ∷ []) found.1);
      position = omega (arith, length-append found.0 (cr ∷ lf ∷ []));
    }

decimal_of-IsSafe : (bound : ℕ) (o : Option ℕ) → IsSafe bound (decimal_of o)
unfolding decimal_of
decimal_of-IsSafe bound none c pos short = tt
decimal_of-IsSafe bound (some n) c pos short = Consumes-refl c

times-IsSafe :
    (bound : ℕ) (body : Reader (Unit {0})) (n : ℕ) → IsSafe bound body → IsSafe bound (times body n)
unfolding times
times-IsSafe bound body zero h = pure-IsSafe {0} bound tt
times-IsSafe bound body (suc n) h =
    >>=-IsSafe bound body (λ _. times body n) h (λ _. times-IsSafe bound body n h)

module _ (pf : Platform) where
  get_decimal-IsSafe : (bound : ℕ) → IsSafe bound (get_decimal pf)
  unfolding get_decimal
  get_decimal-IsSafe bound =
      >>=-IsSafe bound get_line (λ line. decimal_of (pf.atoi line)) (get_line-IsSafe bound)
        (λ line. decimal_of-IsSafe bound (pf.atoi line))

  check_bulk-IsSafe : (bound b : ℕ) → IsSafe bound (check_bulk pf b)
  unfolding check_bulk
  check_bulk-IsSafe bound b = if-IsSafe bound (b == b'-') _ _ (skip-IsSafe bound 4) (
      >>=-IsSafe bound (get_decimal pf) (λ len. skip (plus_two len)) (get_decimal-IsSafe bound)
        (λ len. skip-IsSafe bound (plus_two len)))

  then_unit :
      {A : Type 0} (bound : ℕ) (p : Reader A)
      → IsSafe bound p
      → IsSafe {0} bound (p >>= λ _. pure (tt {0}))
  then_unit bound p h = >>=-IsSafe bound p (λ _. pure tt) h (λ _. pure-IsSafe {0} bound tt)

  check_type-IsSafe :
      (bound : ℕ) (nested : Reader (Unit {0}))
      → IsSafe bound nested
      → (b : ℕ) → IsSafe bound (check_type pf nested b)
  unfolding check_type
  check_type-IsSafe bound nested h b =
      let line = then_unit bound get_line (get_line-IsSafe bound) in
      if-IsSafe bound (b == b'+') _ _ line (
        if-IsSafe bound (b == b'-') _ _ line (
          if-IsSafe bound (b == b':') _ _
            (then_unit bound (get_decimal pf) (get_decimal-IsSafe bound))
            (if-IsSafe bound (b == b'$') _ _
              (>>=-IsSafe bound peek_u8 (check_bulk pf) (peek_u8-IsSafe bound)
                (check_bulk-IsSafe bound))
              (if-IsSafe bound (b == b'*') _ _
                (>>=-IsSafe bound (get_decimal pf) (times nested) (get_decimal-IsSafe bound)
                  (λ len. times-IsSafe bound nested len h))
                (λ c pos short. tt)))))

  -- With at least one unit of fuel more than the buffer has bytes, `check` neither runs out of fuel
  -- nor panics; where it succeeds, it has taken bytes off the front of the buffer, and the position
  -- has moved by their number.
  pub check-Safe :
      (f : ℕ) (c : Cursor) → length c.rest < f → Safe (λ (a, d). Consumes c d) (check pf f c)
  unfolding check get_u8 get_byte
  check-Safe zero c h = absurd (omega arith)
  check-Safe (suc f) c h = first (λ d pos short. check-Safe f d short) c.rest refl
    where
      first :
          IsSafe f (check pf f)
          → (s : Bytes) → c.rest ≡ s
          → Safe
              (λ (a, d). Consumes c d)
              (and_then (get_byte s c) λ (b, d). check_type pf (check pf f) b d)
      first nested [] e = tt
      first nested (b ∷ s) e =
          let d : Cursor = record { pos = c.pos + 1; rest = s } in
          let one : Consumes c d = record { used = b ∷ []; buffer = e; position = omega arith } in
          Safe-trans c d (check_type pf (check pf f) b d) one (
            check_type-IsSafe f (check pf f) nested b d (omega arith)
              (omega (arith, h, ap length e)))
