-- ===== src/Command.antt =====
-- mini-redis/src/cmd/: the commands, read from a frame and written as one.
pub mod RoundTrip
pub mod Apply
pub mod Replies
pub mod Subscribe
use tokioconf_2026_workshop.Base.{
  ℕ, ◌+◌, ◌*◌, ◌/◌, Bool, true, false, Option, none, some, List, [], ◌∷◌, ◌++◌, map, Bytes, codes,
  same, if◌then◌else◌, Outcome, ok, err, panic, out_of_fuel, and_then, map_err,
}
use tokioconf_2026_workshop.Frame.{
  Frame, Frames, bulk, array, nil, cons, Message, text, push_bulk, empty_array,
}
use mathlib.Core.Option
use tokioconf_2026_workshop.Parse
use tokioconf_2026_workshop.Parse.{
  ParseError, end_of_stream, other, Parser, next_string, next_bytes, next_int, finish, to_message,
}
use tokioconf_2026_workshop.Std.Decimal.{decimal}
use tokioconf_2026_workshop.Std.Platform.{Platform}

-- `Duration`, in nanoseconds.
abbrev pub from_secs : ℕ → ℕ
from_secs s = s * 1_000_000_000

abbrev pub from_millis : ℕ → ℕ
from_millis ms = ms * 1_000_000

abbrev pub as_millis : ℕ → ℕ
as_millis d = d / 1_000_000

-- `enum Command`, with the fields of the struct of each variant.
pub data Command : Type 0 where
  get : Bytes → Command
  publish : Bytes → Bytes → Command
  set : Bytes → Bytes → Option ℕ → Command
  subscribe : List Bytes → Command
  unsubscribe : List Bytes → Command
  ping : Option Bytes → Command
  unknown : Bytes → Command

abbrev lift {ℓ} : {A : Type ℓ} → Outcome ParseError A → Outcome Message A
lift = map_err to_message

-- The result of a handler's `parse_frames`, with the parts it leaves.
abbrev Parsed : Type 0
Parsed = Outcome Message (Command × Frames)

unfoldable pub parse_get : Frames → Parsed
unfolding to_message next_string
parse_get fs = and_then (lift (next_string fs)) λ (key, rest). ok (get key, rest)

unfoldable pub parse_publish : Frames → Parsed
unfolding to_message next_string next_bytes
parse_publish fs = and_then (lift (next_string fs)) λ (channel, rest).
    and_then (lift (next_bytes rest)) λ (message, rest'). ok (publish channel message, rest')

-- The match on the result of the third `next_string` of `SET`.
module _ (pf : Platform) where
  set_option : Bytes → Bytes → Frames → Outcome ParseError (Bytes × Frames) → Parsed
  unfolding to_message next_int
  set_option key value at_end (ok (s, rest)) =
      if same (pf.to_uppercase s) (codes "EX")
      then and_then (lift (next_int pf rest))
          (λ (secs, rest'). ok (set key value (some (from_secs secs)), rest'))
      else if same (pf.to_uppercase s) (codes "PX")
      then and_then (lift (next_int pf rest))
          (λ (ms, rest'). ok (set key value (some (from_millis ms)), rest'))
      else err (text (codes "currently `SET` only supports the expiration option"))
  set_option key value at_end (err end_of_stream) = ok (set key value none, at_end)
  set_option key value at_end (err (other m)) = err m
  set_option key value at_end panic = panic
  set_option key value at_end out_of_fuel = out_of_fuel

  unfoldable pub parse_set : Frames → Parsed
  unfolding to_message next_string next_bytes set_option
  parse_set fs = and_then (lift (next_string fs)) λ (key, rest).
      and_then (lift (next_bytes rest))
        λ (value, rest'). set_option key value rest' (next_string rest')

-- The loop over the remaining names; `end_of_stream` ends it.
unfoldable pub channels : Frames → Outcome ParseError (List Bytes)
unfolding Parse.as_string
channels nil = ok []
channels (cons f fs) = and_then (Parse.as_string f) λ s. and_then (channels fs) λ ss. ok (s ∷ ss)

unfoldable pub parse_subscribe : Frames → Parsed
unfolding to_message next_string channels
parse_subscribe fs =
    and_then (lift (next_string fs)) λ (first, rest).
      and_then (lift (channels rest)) λ others. ok (subscribe (first ∷ others), nil)

unfoldable pub parse_unsubscribe : Frames → Parsed
unfolding to_message channels
parse_unsubscribe fs = and_then (lift (channels fs)) λ names. ok (unsubscribe names, nil)

ping_message : Frames → Outcome ParseError (Bytes × Frames) → Parsed
unfolding to_message
ping_message at_end (ok (msg, rest)) = ok (ping (some msg), rest)
ping_message at_end (err end_of_stream) = ok (ping none, at_end)
ping_message at_end (err (other m)) = err m
ping_message at_end panic = panic
ping_message at_end out_of_fuel = out_of_fuel

unfoldable pub parse_ping : Frames → Parsed
unfolding next_bytes ping_message
parse_ping fs = ping_message fs (next_bytes fs)

-- `parse.finish()?; Ok(command)`
unfoldable pub finished : Parsed → Outcome Message Command
unfolding finish to_message
finished parsed = and_then parsed λ (command, rest). and_then (lift (finish rest)) λ _. ok command

module _ (pf : Platform) where
  -- The match on the lower-case name.
  unfoldable pub dispatch : Bytes → Frames → Outcome Message Command
  unfolding finished
  dispatch name fs =
      if same name (codes "get")
      then finished (parse_get fs)
      else if same name (codes "publish")
      then finished (parse_publish fs)
      else if same name (codes "set")
      then finished (parse_set pf fs)
      else if same name (codes "subscribe")
      then finished (parse_subscribe fs)
      else if same name (codes "unsubscribe")
      then finished (parse_unsubscribe fs)
      else if same name (codes "ping")
      then finished (parse_ping fs)
      else ok (unknown name)

  unfoldable pub from_frame : Frame → Outcome Message Command
  unfolding dispatch Parse.new next_string to_message
  from_frame frame = and_then (lift (Parse.new frame)) λ parts.
      and_then (lift (next_string parts)) λ (name, rest). dispatch (pf.to_lowercase name) rest

unfoldable pub get_name : Command → Bytes
get_name (get key) = codes "get"
get_name (publish channel message) = codes "publish"
get_name (set key value expire) = codes "set"
get_name (subscribe names) = codes "subscribe"
get_name (unsubscribe names) = codes "unsubscribe"
get_name (ping msg) = codes "ping"
get_name (unknown name) = name

unfoldable pub push_each : List Bytes → Frame → Outcome Message Frame
push_each [] f = ok f
push_each (s ∷ ss) f = and_then (push_bulk f s) (push_each ss)

unfoldable pub expire_parts : Option ℕ → List Bytes
expire_parts none = []
expire_parts (some d) = codes "px" ∷ decimal (as_millis d) ∷ []

unfoldable pub message_part : Option Bytes → List Bytes
message_part none = []
message_part (some msg) = msg ∷ []

-- What `into_frame` pushes onto `Frame::array()`, in order; `Unknown` has no such method.
unfoldable pub parts : Command → Option (List Bytes)
unfolding expire_parts message_part
parts (get key) = some (codes "get" ∷ key ∷ [])
parts (publish channel message) = some (codes "publish" ∷ channel ∷ message ∷ [])
parts (set key value expire) = some (codes "set" ∷ key ∷ value ∷ expire_parts expire)
parts (subscribe names) = some (codes "subscribe" ∷ names)
parts (unsubscribe names) = some (codes "unsubscribe" ∷ names)
parts (ping msg) = some (codes "ping" ∷ message_part msg)
parts (unknown name) = none

unfoldable pub into_frame : Command → Option (Outcome Message Frame)
unfolding parts push_each
into_frame c = Option.map (λ ss. push_each ss empty_array) (parts c)
