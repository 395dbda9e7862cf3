-- ===== src/Workshop/EchoServer.antt =====
-- solutions/ex3.rs: the executor with its reactor, and the echo server's tasks on it. Task 0 is
-- `echo_server`; the task of the stream at place `i` is task `i + 1`. A waker is its task's number.
pub mod Counted
pub mod Polled
pub mod Placed
pub mod Kept
pub mod Woken
pub mod Echoes
use tokioconf_2026_workshop.Base.{
  ℕ, zero, suc, ◌+◌, ◌≡◌, Bool, true, false, Option, none, some, List, [], ◌∷◌, ◌++◌, Bytes,
  if◌then◌else◌, length,
}
use tokioconf_2026_workshop.Workshop.Echo.{Echo, Answer, reading, poll_echo, is_over}
use tokioconf_2026_workshop.Workshop.Reactor
use tokioconf_2026_workshop.Workshop.Reactor.{Reactor, register, set_waker}

-- What `accept` answers: a connection, with what the client has sent; wait; or an error.
pub data Accepted : Type 0 where
  accepted : Bytes → Accepted
  would_block : Accepted
  failed : Accepted

-- A stream's token, what its client has sent in all, and its task.
pub record Stream : Type 0 where
  pub token : ℕ
  pub sent : Bytes
  pub echo : Echo ℕ

-- `listener` is the listener's token, once it is bound. The queue holds the tasks' numbers.
pub record System : Type 0 where
  pub listener : Option ℕ
  pub streams : List Stream
  pub queue : List ℕ
  pub reactor : Reactor ℕ

-- `block_on(echo_server(addr))`, before the first poll.
unfoldable pub start : System
unfolding Reactor.new
start = record { listener = none; streams = []; queue = 0 ∷ []; reactor = Reactor.new }

-- What the operating system answers in one poll of a task: whether the address can be bound, and
-- the answers to the calls of the listener or of the stream.
pub record Answers : Type 0 where
  pub binds : Bool
  pub accepts : List Accepted
  pub calls : List Answer

unfoldable pub new_stream : ℕ → Bytes → Reactor ℕ → Stream
new_stream token input r = record {
  token = token;
  sent = input;
  echo = record { place = reading; input = input; output = []; reactor = r; is_pending = false };
}

-- `spawn(async move { echo(stream).await ... })`, with the stream registered.
unfoldable pub spawn : Bytes → System → System
unfolding register new_stream
spawn input s =
    let (token, r) = register s.reactor in
    record s {
      streams = s.streams ++ new_stream token input r ∷ [];
      queue = s.queue ++ suc (length s.streams) ∷ [];
      reactor = r;
    }

-- `listener.accept()` that would block.
unfoldable pub wait : ℕ → System → System
unfolding set_waker
wait token s = record s { reactor = set_waker token 0 s.reactor }

-- The loop of `echo_server`, until `accept` would block; `none` is the panic of its `unwrap`.
unfoldable pub accept_each : ℕ → List Accepted → System → Option System
unfolding spawn wait
accept_each token [] s = some (wait token s)
accept_each token (accepted input ∷ later) s = accept_each token later (spawn input s)
accept_each token (would_block ∷ later) s = some (wait token s)
accept_each token (failed ∷ later) s = none

unfoldable pub bind : System → ℕ × System
unfolding register
bind s =
    let (token, r) = register s.reactor in (token, record s { listener = some token; reactor = r })

-- One poll of `echo_server`.
unfoldable pub poll_server : Answers → Option ℕ → System → Option System
unfolding bind accept_each
poll_server a (some token) s = accept_each token a.accepts s
poll_server a none s = if a.binds then accept_each (bind s).0 a.accepts (bind s).1 else none

abbrev pub stream : List Stream → ℕ → Option Stream
stream [] i = none
stream (x ∷ xs) zero = some x
stream (x ∷ xs) (suc i) = stream xs i

abbrev pub put : List Stream → ℕ → Stream → List Stream
put [] i y = []
put (x ∷ xs) zero y = y ∷ xs
put (x ∷ xs) (suc i) y = x ∷ put xs i y

-- The state of the task of a stream after one more poll by task `w`.
unfoldable pub polled : ℕ → List Answer → Stream → Reactor ℕ → Stream
unfolding poll_echo
polled w calls x r = record x {
  echo = poll_echo x.token w calls (record x.echo { reactor = r; is_pending = false });
}

-- One poll of `echo`; an `async fn` that has returned panics.
unfoldable pub poll_stream : Answers → ℕ → Option Stream → System → Option System
unfolding polled is_over
poll_stream a i none s = none
poll_stream a i (some x) s =
    let y = polled (suc i) a.calls x s.reactor in
    if is_over x.echo.place
    then none
    else some (record s { streams = put s.streams i y; reactor = y.echo.reactor })

unfoldable pub poll_task : Answers → ℕ → System → Option System
unfolding poll_server poll_stream
poll_task a zero s = poll_server a s.listener s
poll_task a (suc i) s = poll_stream a i (stream s.streams i) s

-- More of what a client sends.
unfoldable pub send : Bytes → Stream → Stream
send input x = record x {
  sent = x.sent ++ input;
  echo = record x.echo { input = x.echo.input ++ input };
}

-- The loop of `block_on`: it polls the first task of the queue, and turns the reactor when the queue
-- is empty. The main task does not return, so the loop does not end.
pub data Step (s : System) : System → Type 0 where
  poll :
      (i : ℕ) (rest : List ℕ) (a : Answers) (t : System)
      → s.queue ≡ i ∷ rest
      → poll_task a i (record s { queue = rest }) ≡ some t
      → Step s t
  turn :
      (events : List ℕ)
      → s.queue ≡ []
      → Step s (record s {
        queue = (Reactor.turn events s.reactor []).1;
        reactor = (Reactor.turn events s.reactor []).0;
      })
  sends :
      (i : ℕ) (x : Stream) (input : Bytes)
      → stream s.streams i ≡ some x
      → Step s (record s { streams = put s.streams i (send input x) })

pub data Reach : System → Type 0 where
  here : Reach start
  next : {s t : System} → Reach s → Step s t → Reach t
