-- ===== src/Bench/Loop/Finished.antt =====
-- When an event makes `done_count` grow.
use tokioconf_2026_workshop.Base.{
  ℕ, ◌+◌, ◌-◌, some, ◌≡◌, refl, ◌⊎◌, inl, inr, Bool, true, false, arith, leb, ◌==◌, if◌then◌else◌,
  ok, err, panic, out_of_fuel, length, Bool-cases,
}
use mathlib.Core.Option
use tokioconf_2026_workshop.Bench.{Parsed, parse_responses}
use tokioconf_2026_workshop.Bench.Loop.{
  Conn, Ready, is_done, Handled, receive, flush, next_batch, on_readable, on_writable,
  then_readable, on_event,
}
use tokioconf_2026_workshop.Bench.Loop.Counts.{Returns, then-Returns, any-Returns}

abbrev pub flag : Conn → ℕ
flag c = if is_done c then 1 else 0

-- What is added for a connection that is done then.
flag-next_batch : (c : Conn) → flag (next_batch c).0 ≡ (next_batch c).1
unfolding next_batch is_done
flag-next_batch c = elim (Bool-cases (c.pending == 0)) [
  | inl e ↦ elim (Bool-cases (leb c.total c.sent)) [
    | inl f ↦ rw (e, f) (ground arith)
    | inr f ↦ rw (e, f) (ground arith)
  ]
  | inr e ↦ rw e (ground arith)
]

on_readable-flag : (r : Ready) (c : Conn) → Returns (λ p. flag p.0 ≡ p.2) (on_readable r c)
unfolding on_readable
on_readable-flag r c =
    then-Returns (λ _. Unit) _ (receive r.reads c.recv) _ (any-Returns _)
      λ recv _.
        then-Returns (λ _. Unit) _ (parse_responses c.pending recv) _ (any-Returns _)
          λ p _. flag-next_batch (record c {
            batch_latency = some (Option.get_or c.batch_latency (r.read_at - c.batch_start));
            recv = p.1;
            pending = p.0;
          })

on_writable-open :
    (r : Ready) (c : Conn)
    → is_done c ≡ false
    → Returns (λ p. is_done p.0 ≡ false) (on_writable r c)
unfolding on_writable is_done
on_writable-open r c h =
    then-Returns (λ _. Unit) _ (flush r.writes (length c.obuf) c.written) _ (any-Returns _)
      λ written _. elim (Bool-cases (written == length c.obuf)) [ inl e ↦ rw e h | inr e ↦ rw e h ]

then_readable-flag :
    (r : Ready) (p : Conn × Bool)
    → is_done p.0 ≡ false
    → Returns (λ p. flag p.0 ≡ p.2) (then_readable r p)
unfolding then_readable
then_readable-flag r (c, true) h = rw h refl
then_readable-flag r (c, false) h = elim (Bool-cases r.is_readable) [
  | inl e ↦ rw e (on_readable-flag r c)
  | inr e ↦ rw (e, h) refl
]

-- An event adds to `done_count` what the connection is done behind it and was not before.
pub on_event-flag : (r : Ready) (c : Conn) → Returns (λ p. flag p.0 ≡ flag c + p.2) (on_event r c)
unfolding on_event
on_event-flag r c = elim (Bool-cases (is_done c)) [
  | inl e ↦ rw (e, e) refl
  | inr e ↦ rw e (
      later _ (
        then-Returns (λ p. is_done p.0 ≡ false) (λ p. flag p.0 ≡ p.2) _ (then_readable r)
          (first e (Bool-cases r.is_writable)) (then_readable-flag r)))
]
  where
    first :
        is_done c ≡ false
        → ((r.is_writable ≡ true) ⊎ (r.is_writable ≡ false))
        → Returns
            (λ p. is_done p.0 ≡ false)
            (if r.is_writable then on_writable r c else ok (c, false))
    first h (inl e) = rw e (on_writable-open r c h)
    first h (inr e) = rw e h

    later :
        (o : Parsed Handled) → Returns (λ p. flag p.0 ≡ p.2) o → Returns (λ p. flag p.0 ≡ 0 + p.2) o
    later (ok p) h = omega (arith, h)
    later (err _) h = tt
    later panic h = tt
    later out_of_fuel h = tt
