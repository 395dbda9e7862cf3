-- ===== src/Tests/Clients.antt =====
-- Clients of the server, and the benchmark, at concrete inputs.
use tokioconf_2026_workshop.Base.{
  ◌≡◌, refl, false, true, some, [], ◌∷◌, ◌++◌, arith, Bytes, codes, ok, err, length, same, All, sym,
  ap, ◌∙◌, append-nil, subst, ◌<◌, map,
}
use mathlib.Core.List.{flatten}
use tokioconf_2026_workshop.Bench.{Phase, build_batch, parse_responses}
use tokioconf_2026_workshop.Bench.Batch.{keys, command, request, build_batch-from_frame}
use tokioconf_2026_workshop.Bench.Responses.{stream, parse_responses-stream}
use tokioconf_2026_workshop.Client.{idle, returned, client_get, client_set}
use tokioconf_2026_workshop.Client.EndToEnd.{Trip, IsTrip, handled, client_get-client_set}
use tokioconf_2026_workshop.Client.Subscriber.{acknowledge, client_unsubscribe}
use tokioconf_2026_workshop.Client.Subscriber.Unsubscribed.{
  without, unsubscribe_all, acknowledge-doubled, client_unsubscribe-handle,
}
use tokioconf_2026_workshop.Command.{unsubscribe, from_frame}
use tokioconf_2026_workshop.Command.Apply.{value_frame}
use tokioconf_2026_workshop.Command.Replies.{sent}
use tokioconf_2026_workshop.Command.Subscribe.{handle}
use tokioconf_2026_workshop.Command.Subscribe.Acknowledged.{
  countdown, unsubscribed, handle-countdown,
}
use tokioconf_2026_workshop.Connection
use tokioconf_2026_workshop.Connection.{Connection, received}
use tokioconf_2026_workshop.Frame.{simple, bulk, null}
use tokioconf_2026_workshop.Frame.Display.{to_error}
use tokioconf_2026_workshop.Frame.Wire.{encode}
use tokioconf_2026_workshop.Server.Session.Pipeline.{put-IsBounded, Steps, step-Steps}
use tokioconf_2026_workshop.Server.Session.Store.{view, put, IsBounded}
use tokioconf_2026_workshop.Db.{State}
use tokioconf_2026_workshop.Std.Reference.{reference}
use tokioconf_2026_workshop.Std.StreamMap.{has, Distinct}
use tokioconf_2026_workshop.Tests.Database.{counting}
use tokioconf_2026_workshop.Tests.Sessions.{
  listed, two_channels, no_entries, no_entries-IsBounded, first_set, then_get, first_set-IsRequest,
  then_get-IsRequest,
}

acknowledge-doubled_example :
    (acknowledge (unsubscribed (codes "a") 0) (codes "a" ∷ codes "a" ∷ []) ≡ (
      err (to_error (unsubscribed (codes "a") 0)),
      without (codes "a") (codes "a" ∷ codes "a" ∷ []),
    ))
    × (has (codes "a") (without (codes "a") (codes "a" ∷ codes "a" ∷ [])) ≡ false)
unfolding same
acknowledge-doubled_example = acknowledge-doubled (codes "a") 0 [] (codes "a" ∷ []) refl

parse_responses-stream_example :
    parse_responses 4 (stream (simple (codes "OK") ∷ bulk (codes "v") ∷ null ∷ []) ++ codes "$1")
    ≡ parse_responses 1 (codes "$1")
parse_responses-stream_example =
    parse_responses-stream (simple (codes "OK") ∷ bulk (codes "v") ∷ null ∷ []) 1 (codes "$1")
      (omega arith)

build_batch-from_frame_example :
    (build_batch Phase.set 7 2 (codes "xx")
      ≡ stream (map (request Phase.set (codes "xx")) (keys 7 0 2)))
    × (map (λ key. from_frame reference (request Phase.set (codes "xx") key)) (keys 7 0 2)
        ≡ map (λ key. ok (command Phase.set key (codes "xx"))) (keys 7 0 2))
build_batch-from_frame_example = build_batch-from_frame reference Phase.set 7 2 (codes "xx")

abbrev set_trip : Trip reference 100 counting listed
set_trip = record {
  request = first_set;
  client_stream = [];
  server_stream = [];
  out = encode first_set.frame ∷ [];
  back = encode (simple (codes "OK")) ∷ [];
}

abbrev get_trip : Trip reference 100 counting listed
get_trip = record {
  request = then_get;
  client_stream = [];
  server_stream = [];
  out = encode then_get.frame ∷ [];
  back = encode (bulk (codes "v")) ∷ [];
}

whole : (b : Bytes) → flatten (b ∷ []) ≡ b ++ []
unfolding flatten
whole b = refl

whole_only : (b : Bytes) → flatten (b ∷ []) ≡ b
whole_only b = whole b ∙ append-nil b

set_bytes : 0 < length (encode first_set.frame)
unfolding encode
set_bytes = omega arith

get_bytes : 0 < length (encode then_get.frame)
unfolding encode
get_bytes = omega arith

ok_bytes : 0 < length (encode (simple (codes "OK")))
unfolding encode
ok_bytes = omega arith

v_bytes : 0 < length (encode (bulk (codes "v")))
unfolding encode
v_bytes = omega arith

abbrev middle : State counting.Sender
middle = (handled reference 100 counting listed set_trip no_entries).shared.state

set_handled : Steps reference 100 counting listed first_set (idle []) set_trip.out no_entries []
set_handled =
    step-Steps reference 100 counting listed first_set (idle []) set_trip.out no_entries []
      first_set-IsRequest no_entries-IsBounded (set_bytes, tt) (whole (encode first_set.frame))

set_back :
    Steps reference 100 counting listed first_set (idle []) set_trip.out no_entries []
    → ((handled reference 100 counting listed set_trip no_entries).connection.stream
        ≡ encode (simple (codes "OK")))
      × (view middle ≡ put (codes "k") (codes "v") (view no_entries))
set_back (left, later, st', stepped, rest, full, moved) =
    (ap (λ y. y.connection.stream) stepped, ap (λ y. view y.shared.state) stepped ∙ moved)

set_trip-IsTrip : IsTrip reference 100 counting listed no_entries set_trip
set_trip-IsTrip = record {
  request = first_set-IsRequest;
  bytes_out = (set_bytes, tt);
  bytes_back = (ok_bytes, tt);
  carries_out = whole_only (encode first_set.frame);
  carries_back = (set_back set_handled).0 ∙ sym (whole_only (encode (simple (codes "OK"))));
}

middle-IsBounded : IsBounded (view middle)
middle-IsBounded =
    subst IsBounded (sym (set_back set_handled).1)
      (put-IsBounded (codes "k") (codes "v") (view no_entries) (omega arith) no_entries-IsBounded)

get_back :
    Steps reference 100 counting listed then_get (idle []) get_trip.out middle []
    → (handled reference 100 counting listed get_trip middle).connection.stream
      ≡ encode (bulk (codes "v"))
unfolding same value_frame
get_back (left, later, st', stepped, rest, full, moved) =
    ap (λ y. y.connection.stream) stepped
    ∙ ap (λ m. encode (value_frame (m (codes "k")))) (set_back set_handled).1

get_trip-IsTrip : IsTrip reference 100 counting listed middle get_trip
get_trip-IsTrip = record {
  request = then_get-IsRequest;
  bytes_out = (get_bytes, tt);
  bytes_back = (v_bytes, tt);
  carries_out = whole_only (encode then_get.frame);
  carries_back =
      get_back (
        step-Steps reference 100 counting listed then_get (idle []) get_trip.out middle []
          then_get-IsRequest middle-IsBounded (get_bytes, tt) (whole (encode then_get.frame)))
      ∙ sym (whole_only (encode (bulk (codes "v"))));
}

client_get-client_set_example :
    (client_set reference (codes "k") (codes "v") (idle []) (map received set_trip.back)
      ≡ returned (ok tt) (idle (flatten set_trip.out)) [])
    × (client_get reference (codes "k") (idle []) (map received get_trip.back)
        ≡ returned (ok (some (codes "v"))) (idle (flatten get_trip.out)) [])
client_get-client_set_example =
    client_get-client_set reference 100 counting listed (codes "k") (codes "v") no_entries set_trip
      get_trip refl refl no_entries-IsBounded (omega arith) set_trip-IsTrip get_trip-IsTrip

abbrev outcome :
    (subs' : listed.Streams) × (handle reference counting listed
        (unsubscribe [])
        two_channels
        Connection.new
      ≡ ok ([], (subs', sent (countdown (codes "a" ∷ codes "b" ∷ [])) Connection.new)))
    × (subs'.0 ≡ [])
outcome =
    handle-countdown reference counting listed two_channels Connection.new
      (omega arith, (omega arith, tt)) (omega arith)

abbrev acknowledged : Bytes
acknowledged = countdown (codes "a" ∷ codes "b" ∷ [])

acknowledged_bytes : 0 < length acknowledged
unfolding encode
acknowledged_bytes = omega arith

from_start :
    (sent acknowledged Connection.new).stream
    ≡ (Connection.new).stream ++ flatten (acknowledged ∷ [])
unfolding Connection.new
from_start = sym (whole_only acknowledged)

both_there : All (λ k. has k (codes "b" ∷ codes "a" ∷ []) ≡ true) (codes "a" ∷ codes "b" ∷ [])
unfolding same
both_there = (refl, (refl, tt))

other_order : Distinct (codes "b" ∷ codes "a" ∷ [])
unfolding same
other_order = (refl, (refl, tt))

client_unsubscribe-handle_example :
    (client_unsubscribe reference []
        (codes "b" ∷ codes "a" ∷ [])
        (idle [])
        (map received (acknowledged ∷ []))
      ≡ (returned (ok tt) (idle ([] ++ encode unsubscribe_all)) [], []))
    × (outcome.0.0 ≡ [])
client_unsubscribe-handle_example =
    client_unsubscribe-handle reference counting listed two_channels outcome.0
      (codes "b" ∷ codes "a" ∷ []) [] (acknowledged ∷ []) Connection.new
      (sent acknowledged Connection.new) [] other_order refl both_there
      (omega arith, (omega arith, tt)) (omega arith) (acknowledged_bytes, tt) outcome.1 from_start
