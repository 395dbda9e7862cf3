-- ===== src/Workshop/EchoServer/Woken.antt =====
-- No task of the echo server is lost, and none is polled once it is over.
use tokioconf_2026_workshop.Base.{
  ℕ, zero, suc, ◌≡◌, ◌≢◌, ◌<◌, refl, ap, ◌∙◌, inl, inr, true, false, Option, none, some, List, [],
  ◌∷◌, arith, length, lt→ltb, Bool-cases, All,
}
use tokioconf_2026_workshop.Workshop.Echo.{is_over}
use tokioconf_2026_workshop.Workshop.EchoServer.{
  Accepted, accepted, would_block, failed, Stream, System, Answers, stream, spawn, wait,
  accept_each, bind, poll_server, poll_stream, poll_task, Reach,
}
use tokioconf_2026_workshop.Workshop.EchoServer.Counted.{
  count, stored, over, over_in, over_at, turn_places,
}
use tokioconf_2026_workshop.Workshop.EchoServer.Kept.{Reach-Placed}
use tokioconf_2026_workshop.Workshop.Reactor
use tokioconf_2026_workshop.Workshop.Reactor.{contains, notify_token, turn-io_wakers}

-- The operating system reports no error other than that a call would block.
abbrev Succeeds : Accepted → Type 0
Succeeds (accepted input) = Unit
Succeeds would_block = Unit
Succeeds failed = ⊥

pub record IsCalm (a : Answers) : Type 0 where
  pub bound : a.binds ≡ true
  pub all_accepted : All Succeeds a.accepts

accept_each-runs :
    (token : ℕ) (accepts : List Accepted) (s : System)
    → All Succeeds accepts
    → (t : System) × (accept_each token accepts s ≡ some t)
unfolding accept_each wait
accept_each-runs token [] s h = (wait token s, refl)
accept_each-runs token (accepted input ∷ later) s (h, hs) =
    accept_each-runs token later (spawn input s) hs
accept_each-runs token (would_block ∷ later) s h = (wait token s, refl)
accept_each-runs token (failed ∷ later) s (h, hs) = absurd h

server-runs :
    (a : Answers) (o : Option ℕ) (s : System)
    → IsCalm a
    → (t : System) × (poll_server a o s ≡ some t)
unfolding poll_server
server-runs a (some token) s calm = accept_each-runs token a.accepts s calm.all_accepted
server-runs a none s calm =
    rw calm.bound (accept_each-runs (bind s).0 a.accepts (bind s).1 calm.all_accepted)

-- A stream that is there and not over.
there_still :
    (i : ℕ) (xs : List Stream)
    → i < length xs
    → over_in i xs ≡ 0
    → (x : Stream) × (stream xs i ≡ some x) × (is_over x.echo.place ≡ false)
there_still i [] there h = absurd (omega arith)
there_still zero (x ∷ xs) there h = elim (Bool-cases (is_over x.echo.place)) [
  | inl e ↦ absurd (omega (arith, h, ap over e))
  | inr e ↦ (x, refl, e)
]
there_still (suc i) (x ∷ xs) there h = there_still i xs (omega arith) h

task-runs :
    (a : Answers) (i : ℕ) (s : System)
    → IsCalm a
    → i < suc (length s.streams)
    → over_at i s.streams ≡ 0
    → (t : System) × (poll_task a i s ≡ some t)
unfolding poll_task poll_stream
task-runs a zero s calm there h = server-runs a s.listener s calm
task-runs a (suc i) s calm there h =
    let (x, found, goes_on) = there_still i s.streams (omega arith) h in
    rw (found, goes_on) (_, refl)

-- However the clients, the operating system and the tasks take turns: whatever task stands first in
-- the queue can be polled, if the operating system reports no error of the listener. It is there and
-- it is not over, so that no `async fn` is polled once it has returned.
pub Reach-polls :
    (s : System) (i : ℕ) (rest : List ℕ) (a : Answers)
    → Reach s
    → s.queue ≡ i ∷ rest
    → IsCalm a
    → (t : System) × (poll_task a i (record s { queue = rest }) ≡ some t)
Reach-polls s i rest a r e calm =
    let v = Reach-Placed r in
    let queued : 0 < count i s.queue = ground (arith, ap (count i) e) in
    task-runs a i (record s { queue = rest }) calm (ground (arith, v.once i, queued))
      (ground (arith, v.once i, queued))

-- When the queue is empty and the executor waits for events, then an event of the token of any task
-- that is not over puts that task into the queue, once: no wake-up is lost, and none comes twice. The
-- token is not the one of the executor's own signal.
pub Reach-wakes :
    (s : System) (i : ℕ) (events : List ℕ)
    → Reach s
    → s.queue ≡ []
    → i < suc (length s.streams)
    → over_at i s.streams ≡ 0
    → i ≢ notify_token
    → contains i events ≡ true
    → count i (Reactor.turn events s.reactor []).1 ≡ 1
Reach-wakes s i events r e there going other told =
    let v = Reach-Placed r in
    let gone : (Reactor.turn events s.reactor []).0.io_wakers i ≡ none =
      turn-io_wakers events s.reactor [] i ∙ (ground (arith, told, other)) in
    ground (
      arith,
      v.once i,
      ap (count i) e,
      turn_places events s.reactor [] i v.own,
      ap stored gone,
      lt→ltb i (suc (length s.streams)) there,
    )
