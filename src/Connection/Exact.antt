-- ===== src/Connection/Exact.antt =====
-- `parse_frame` discards what it has parsed, and nothing else.
use tokioconf_2026_workshop.Base.{
  ◌≡◌, refl, sym, ap, ◌∙◌, Option, some, none, ◌++◌, arith, Bytes, Outcome, ok, err, panic,
  out_of_fuel, length, drop, drop-length,
}
use tokioconf_2026_workshop.Connection.{
  Connection, parse_frame, after_check, take_frame, start, fuel,
}
use tokioconf_2026_workshop.Frame.{Frame, Message, Error, incomplete, other}
use tokioconf_2026_workshop.Frame.Agree.{Ends, check-Agrees}
use tokioconf_2026_workshop.Frame.Check.{check}
use tokioconf_2026_workshop.Frame.Cursor.{Cursor}
use tokioconf_2026_workshop.Frame.Decode.{decode}
use tokioconf_2026_workshop.Frame.Reads.{cursor}
use tokioconf_2026_workshop.Frame.Total.{Consumes, Safe, check-Safe}
use tokioconf_2026_workshop.Std.Platform.{Platform}

-- What a result holds, or else what is given.
abbrev frame_of : Frame → Outcome Message (Option Frame × Connection) → Frame
frame_of g (ok (some f, c)) = f
frame_of g (ok (none, c)) = g
frame_of g (err m) = g
frame_of g panic = g
frame_of g out_of_fuel = g

abbrev connection_of : Connection → Outcome Message (Option Frame × Connection) → Connection
connection_of c (ok (o, c')) = c'
connection_of c (err m) = c
connection_of c panic = c
connection_of c out_of_fuel = c

module _ (pf : Platform) where
  -- Whenever `parse_frame` returns a frame, `parse` read it from the front of the buffer, and the
  -- buffer is left with exactly the bytes behind the place where `parse` stopped. The stream is left
  -- alone.
  pub parse_frame-exact :
      (c c' : Connection) (f : Frame)
      → parse_frame pf c ≡ ok (some f, c')
      → (used : Bytes) × (c.buffer ≡ used ++ c'.buffer)
        × (c'.stream ≡ c.stream)
        × (decode pf (fuel c) (cursor 0 c.buffer) ≡ ok (f, cursor (length used) c'.buffer))
  unfolding parse_frame after_check start take_frame
  parse_frame-exact c c' f h =
      found (check pf (fuel c) (cursor 0 c.buffer)) (decode pf (fuel c) (cursor 0 c.buffer)) refl
        refl (check-Safe pf (fuel c) (cursor 0 c.buffer) (omega arith))
        (check-Agrees pf (fuel c) (cursor 0 c.buffer)) h
    where
      found :
          (r : Outcome Error (Unit {0} × Cursor)) (r' : Outcome Error (Frame × Cursor))
          → check pf (fuel c) (cursor 0 c.buffer) ≡ r
          → decode pf (fuel c) (cursor 0 c.buffer) ≡ r'
          → Safe (λ (a, d). Consumes (cursor 0 c.buffer) d) r
          → Ends r r'
          → after_check pf c r ≡ ok (some f, c')
          → (used : Bytes) × (c.buffer ≡ used ++ c'.buffer)
            × (c'.stream ≡ c.stream)
            × (decode pf (fuel c) (cursor 0 c.buffer) ≡ ok (f, cursor (length used) c'.buffer))
      found (ok (_, d)) (ok (g, d')) e e' k same h =
          let taken = rw e' at h in
          let frames : g ≡ f = ap (frame_of g) taken in
          let left : record c { buffer = drop d.pos c.buffer } ≡ c' = ap (connection_of c) taken in
          let position : d.pos ≡ length k.used = omega (arith, k.position) in
          let rest : drop d.pos c.buffer ≡ d.rest =
            rw (k.buffer, position) (drop-length k.used d.rest) in
          let buffer : c'.buffer ≡ d.rest = sym (ap (λ (z : Connection). z.buffer) left) ∙ rest in
          (
            k.used,
            k.buffer ∙ ap (λ z. k.used ++ z) (sym buffer),
            sym (ap (λ (z : Connection). z.stream) left),
            e' ∙ rw (frames, ← same, buffer, ← position) refl,
          )
      found (ok (_, d)) (err m) e e' k same h = let x = rw e' at h in ground arith
      found (ok (_, d)) panic e e' k same h = let x = rw e' at h in ground arith
      found (ok (_, d)) out_of_fuel e e' k same h = let x = rw e' at h in ground arith
      found (err incomplete) r' e e' k same h = ground arith
      found (err (other m)) r' e e' k same h = ground arith
      found panic r' e e' k same h = absurd k
      found out_of_fuel r' e e' k same h = absurd k
