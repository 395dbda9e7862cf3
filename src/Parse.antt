-- ===== src/Parse.antt =====
-- mini-redis/src/parse.rs: taking the parts of an array frame one by one.
use tokioconf_2026_workshop.Base.{
  ℕ, Option, none, some, Bytes, codes, if◌then◌else◌, Outcome, ok, err, and_then,
}
use tokioconf_2026_workshop.Frame.{
  Frame, Frames, simple, integer, bulk, array, nil, cons, Message, text, showing,
}
use tokioconf_2026_workshop.Std.Platform.{Platform}
use tokioconf_2026_workshop.Std.Utf8.{is_utf8}

-- `ParseError`.
pub data ParseError : Type 0 where
  end_of_stream : ParseError
  other : Message → ParseError

-- An operation on the iterator `parts`, with what it leaves of it.
abbrev pub Parser : Type 0 → Type 0
Parser A = Frames → Outcome ParseError (A × Frames)

unfoldable pub new : Frame → Outcome ParseError Frames
new (array fs) = ok fs
new f = err (other (showing (codes "protocol error; expected array, got ") f))

unfoldable pub next : Parser Frame
next nil = err end_of_stream
next (cons f fs) = ok (f, fs)

abbrev pub expected_text : Bytes
expected_text = codes "protocol error; expected simple frame or bulk frame, got "

unfoldable pub as_string : Frame → Outcome ParseError Bytes
as_string (simple s) = ok s
as_string (bulk s) =
    if is_utf8 s then ok s else err (other (text (codes "protocol error; invalid string")))
as_string f = err (other (showing expected_text f))

unfoldable pub next_string : Parser Bytes
unfolding next as_string
next_string fs = and_then (next fs) λ (f, rest). and_then (as_string f) λ s. ok (s, rest)

unfoldable pub as_bytes : Frame → Outcome ParseError Bytes
as_bytes (simple s) = ok s
as_bytes (bulk s) = ok s
as_bytes f = err (other (showing expected_text f))

unfoldable pub next_bytes : Parser Bytes
unfolding next as_bytes
next_bytes fs = and_then (next fs) λ (f, rest). and_then (as_bytes f) λ s. ok (s, rest)

unfoldable pub number : Option ℕ → Outcome ParseError ℕ
number (some n) = ok n
number none = err (other (text (codes "protocol error; invalid number")))

unfoldable pub as_int : Platform → Frame → Outcome ParseError ℕ
unfolding number
as_int pf (integer n) = ok n
as_int pf (simple s) = number (pf.atoi s)
as_int pf (bulk s) = number (pf.atoi s)
as_int pf f = err (other (showing (codes "protocol error; expected int frame but got ") f))

unfoldable pub next_int : Platform → Parser ℕ
unfolding next as_int
next_int pf fs = and_then (next fs) λ (f, rest). and_then (as_int pf f) λ n. ok (n, rest)

unfoldable pub finish : Frames → Outcome ParseError (Unit {0})
finish nil = ok tt
finish (cons f fs) =
    err (other (text (codes "protocol error; expected end of frame, but there was more")))

-- `From<ParseError>` for `crate::Error`.
unfoldable pub to_message : ParseError → Message
to_message end_of_stream = text (codes "protocol error; unexpected end of stream")
to_message (other m) = m
