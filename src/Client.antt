-- ===== src/Client.antt =====
-- mini-redis/src/clients/client.rs: a request is written, and the answer is read from the connection.
pub mod EndToEnd
pub mod Subscriber
pub mod Buffered
pub mod Blocking
pub mod Cli
use tokioconf_2026_workshop.Base.{
  ℕ, Option, none, some, List, [], ◌∷◌, Bytes, codes, same, if◌then◌else◌, Outcome, ok, err, panic,
  out_of_fuel,
}
use tokioconf_2026_workshop.Command.{Command, get, set, publish, ping, into_frame}
use tokioconf_2026_workshop.Connection.{
  Connection, Arrival, Progress, done, waiting, read_frame, write_frame,
}
use tokioconf_2026_workshop.Frame.{Frame, simple, error, integer, bulk, null, array, Message, text}
use tokioconf_2026_workshop.Frame.Display.{to_error}
use tokioconf_2026_workshop.Std.Platform.{Platform}

-- Nothing received and not yet parsed.
abbrev pub idle : Bytes → Connection
idle stream = record { stream = stream; buffer = [] }

-- A call of a method: it returns with the connection and what the network brings later, or it panics
-- or cannot write (`broken`), or it waits for the network.
pub data Call (A : Type 0) : Type 0 where
  returned : Outcome Message A → Connection → List Arrival → Call A
  broken : Outcome Message (Unit {0}) → Call A
  pending : Connection → Call A

-- The next step, on the value that was returned.
abbrev pub then_call : {A B : Type 0} → Call A → (A → Connection → List Arrival → Call B) → Call B
then_call (returned (ok a) c later) f = f a c later
then_call (returned (err m) c later) f = returned (err m) c later
then_call (returned panic c later) f = returned panic c later
then_call (returned out_of_fuel c later) f = returned out_of_fuel c later
then_call (broken r) f = broken r
then_call (pending c) f = pending c

-- The match of `read_response`: an error frame is an error of the call.
unfoldable pub response_of : Progress → Call Frame
response_of (done (ok (some (error m), c)) later) = returned (err (text m)) c later
response_of (done (ok (some (simple s), c)) later) = returned (ok (simple s)) c later
response_of (done (ok (some (integer n), c)) later) = returned (ok (integer n)) c later
response_of (done (ok (some (bulk s), c)) later) = returned (ok (bulk s)) c later
response_of (done (ok (some null, c)) later) = returned (ok null) c later
response_of (done (ok (some (array fs), c)) later) = returned (ok (array fs)) c later
response_of (done (ok (none, c)) later) =
    returned (err (text (codes "connection reset by server"))) c later
response_of (done (err (m, c)) later) = returned (err m) c later
response_of (done panic later) = broken panic
response_of (done out_of_fuel later) = broken out_of_fuel
response_of (waiting c) = pending c

-- `self.connection.write_frame(&frame).await?`
unfoldable pub sent_request : Outcome Message Connection → List Arrival → Call (Unit {0})
sent_request (ok c) later = returned (ok tt) c later
sent_request (err m) later = broken (err m)
sent_request panic later = broken panic
sent_request out_of_fuel later = broken out_of_fuel

-- `into_frame` panics where its pushes do.
unfoldable pub write_request :
    Option (Outcome Message Frame) → Connection → List Arrival → Call (Unit {0})
unfolding sent_request write_frame
write_request (some (ok f)) c later = sent_request (write_frame f c) later
write_request (some (err m)) c later = broken (err m)
write_request (some panic) c later = broken panic
write_request (some out_of_fuel) c later = broken out_of_fuel
write_request none c later = broken panic

-- What each method makes of the response.
unfoldable pub ping_result : Frame → Outcome Message Bytes
ping_result (simple value) = ok value
ping_result (bulk value) = ok value
ping_result f = err (to_error f)

unfoldable pub get_result : Frame → Outcome Message (Option Bytes)
get_result (simple value) = ok (some value)
get_result (bulk value) = ok (some value)
get_result null = ok none
get_result f = err (to_error f)

unfoldable pub set_result : Frame → Outcome Message (Unit {0})
set_result (simple response) =
    if same response (codes "OK") then ok tt else err (to_error (simple response))
set_result f = err (to_error f)

unfoldable pub publish_result : Frame → Outcome Message ℕ
publish_result (integer response) = ok response
publish_result f = err (to_error f)

module _ (pf : Platform) where
  unfoldable pub read_response : Connection → List Arrival → Call Frame
  unfolding response_of read_frame
  read_response c later = response_of (read_frame pf c later)

  -- A request and its response.
  unfoldable pub exchange :
      {A : Type 0} → Command → (Frame → Outcome Message A) → Connection → List Arrival → Call A
  unfolding read_response write_request
  exchange cmd result c later = then_call (write_request (into_frame cmd) c later) λ _ c' later'.
      then_call (read_response c' later') λ f c'' later''. returned (result f) c'' later''

  unfoldable pub client_ping : Option Bytes → Connection → List Arrival → Call Bytes
  unfolding exchange ping_result
  client_ping msg = exchange (ping msg) ping_result

  unfoldable pub client_get : Bytes → Connection → List Arrival → Call (Option Bytes)
  unfolding exchange get_result
  client_get key = exchange (get key) get_result

  unfoldable pub set_cmd : Command → Connection → List Arrival → Call (Unit {0})
  unfolding exchange set_result
  set_cmd cmd = exchange cmd set_result

  unfoldable pub client_set : Bytes → Bytes → Connection → List Arrival → Call (Unit {0})
  unfolding set_cmd
  client_set key value = set_cmd (set key value none)

  unfoldable pub set_expires : Bytes → Bytes → ℕ → Connection → List Arrival → Call (Unit {0})
  unfolding set_cmd
  set_expires key value expiration = set_cmd (set key value (some expiration))

  unfoldable pub client_publish : Bytes → Bytes → Connection → List Arrival → Call ℕ
  unfolding exchange publish_result
  client_publish channel payload = exchange (publish channel payload) publish_result
