-- ===== src/Connection/Write.antt =====
-- `write_frame` puts the wire format on the stream.
use tokioconf_2026_workshop.Base.{
  ℕ, ◌^◌, ◌<◌, ◌≡◌, refl, ◌++◌, [], ◌∷◌, append_assoc, Bytes, ltb-false, ok, panic, length,
}
use tokioconf_2026_workshop.Connection.{
  ◌>>◌, Connection, Writer, write_decimal, write_value, write_values, write_to, write_frame,
}
use tokioconf_2026_workshop.Frame.{
  Frame, Frames, simple, error, integer, bulk, null, array, nil, cons, size,
}
use tokioconf_2026_workshop.Frame.Wire.{crlf, line, encode, encode_items}
use tokioconf_2026_workshop.Std.Decimal.{decimal, length-decimal}

-- A frame that is no array, with its number or length in `u64`.
abbrev pub IsLiteral : Frame → Type 0
IsLiteral (simple s) = Unit
IsLiteral (error s) = Unit
IsLiteral (integer n) = n < 2 ^ 64
IsLiteral (bulk s) = length s < 2 ^ 64
IsLiteral null = Unit
IsLiteral (array fs) = ⊥

abbrev pub AreLiteral : Frames → Type 0
AreLiteral nil = Unit
AreLiteral (cons f fs) = IsLiteral f × AreLiteral fs

-- A literal or one level of array, as large as `u64` can count.
abbrev pub IsSendable : Frame → Type 0
IsSendable (array fs) = (size fs < 2 ^ 64) × AreLiteral fs
IsSendable f = IsLiteral f

-- Literals, then an array.
abbrev pub IsNested : Frames → Type 0
IsNested nil = ⊥
IsNested (cons (array gs) fs) = Unit
IsNested (cons f fs) = IsLiteral f × IsNested fs

-- `p` appends exactly `bs`.
abbrev Writes : Writer → Bytes → Type 0
Writes p bs = (out : Bytes) → p out ≡ ok (out ++ bs)

-- The 20 bytes of the buffer are enough for every `u64`.
write_decimal_lem : (n : ℕ) → n < 2 ^ 64 → Writes (write_decimal n) (line (decimal n))
unfolding write_decimal
write_decimal_lem n h out =
    rw (ltb-false 20 (length (decimal n)) (length-decimal n h), append_assoc out (decimal n) crlf)

write_value_lem : (f : Frame) → IsLiteral f → Writes (write_value f) (encode f)
unfolding write_value encode
write_value_lem (simple s) h out = simp append_assoc
write_value_lem (error s) h out = simp append_assoc
write_value_lem (integer n) h out =
    rw (write_decimal_lem n h (out ++ b':' ∷ [])) (simp append_assoc)
write_value_lem (bulk s) h out =
    rw (write_decimal_lem (length s) h (out ++ b'$' ∷ [])) (simp append_assoc)
write_value_lem null h out = refl
write_value_lem (array fs) h out = absurd h

write_values_lem : (fs : Frames) → AreLiteral fs → Writes (write_values fs) (encode_items fs)
unfolding write_values encode
write_values_lem nil h out = refl
write_values_lem (cons f fs) (h, hs) out =
    rw (write_value_lem f h out, write_values_lem fs hs (out ++ encode f)) (simp append_assoc)

write_to_lem : (f : Frame) → IsSendable f → Writes (write_to f) (encode f)
unfolding write_to encode
write_to_lem (array fs) (h, hs) out =
    rw
      (
        write_decimal_lem (size fs) h (out ++ b'*' ∷ []),
        write_values_lem fs hs ((out ++ b'*' ∷ []) ++ line (decimal (size fs))),
      )
      (simp append_assoc)
write_to_lem (simple s) h out = write_value_lem (simple s) h out
write_to_lem (error s) h out = write_value_lem (error s) h out
write_to_lem (integer n) h out = write_value_lem (integer n) h out
write_to_lem (bulk s) h out = write_value_lem (bulk s) h out
write_to_lem null h out = write_value_lem null h out

-- A literal, or an array of literals, with numbers and lengths below 2 ^ 64: `write_frame`
-- succeeds, appends the frame's wire format to the stream, and leaves the read buffer alone.
pub write_frame-encode :
    (f : Frame) (c : Connection)
    → IsSendable f
    → write_frame f c ≡ ok (record { stream = c.stream ++ encode f; buffer = c.buffer })
unfolding write_frame
write_frame-encode f c h = rw (write_to_lem f h c.stream)

-- What follows a value that was written panics.
then_panics :
    (f : Frame) (p : Writer) (out : Bytes)
    → IsLiteral f
    → ((o : Bytes) → p o ≡ panic)
    → (write_value f >> p) out ≡ panic
then_panics f p out h hp = rw (write_value_lem f h out, hp (out ++ encode f))

write_values_nested : (fs : Frames) → IsNested fs → (out : Bytes) → write_values fs out ≡ panic
unfolding write_values
write_values_nested nil h out = absurd h
write_values_nested (cons (array gs) fs) h out = unfold write_value in refl
write_values_nested (cons (simple s) fs) (h, hs) out =
    then_panics (simple s) (write_values fs) out h (write_values_nested fs hs)
write_values_nested (cons (error s) fs) (h, hs) out =
    then_panics (error s) (write_values fs) out h (write_values_nested fs hs)
write_values_nested (cons (integer n) fs) (h, hs) out =
    then_panics (integer n) (write_values fs) out h (write_values_nested fs hs)
write_values_nested (cons (bulk s) fs) (h, hs) out =
    then_panics (bulk s) (write_values fs) out h (write_values_nested fs hs)
write_values_nested (cons null fs) (h, hs) out =
    then_panics null (write_values fs) out h (write_values_nested fs hs)

-- An array whose first element that is no literal is itself an array makes `write_frame` panic.
pub write_frame_nested :
    (fs : Frames) (c : Connection)
    → size fs < 2 ^ 64
    → IsNested fs
    → write_frame (array fs) c ≡ panic
unfolding write_frame write_to
write_frame_nested fs c h n = rw (
  write_decimal_lem (size fs) h (c.stream ++ b'*' ∷ []),
  write_values_nested fs n ((c.stream ++ b'*' ∷ []) ++ line (decimal (size fs))),
)
