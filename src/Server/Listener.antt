-- ===== src/Server/Listener.antt =====
-- `Listener::run` and the end of `server::run`: permits, handlers and the completion channel.
use tokioconf_2026_workshop.Base.{ℕ, ◌+◌, ◌-◌, ◌≤◌, ◌<◌, ◌≡◌, arith}

abbrev pub max_connections : ℕ
max_connections = 250

-- Where the task of `run` is: waiting for a permit, accepting with a permit in hand, or past the
-- `select!`, with its own `shutdown_complete_tx` dropped, or returned.
pub data Phase : Type 0 where
  waiting accepting draining returned : Phase

-- `permits` are those left in the semaphore; each handler holds one, and a sender of the
-- completion channel.
pub record Server : Type 0 where
  pub phase : Phase
  pub permits : ℕ
  pub handlers : ℕ

abbrev pub start : Server
start = record { phase = waiting; permits = max_connections; handlers = 0 }

-- What the listener has in hand.
unfoldable pub in_hand : Phase → ℕ
in_hand accepting = 1
in_hand waiting = 0
in_hand draining = 0
in_hand returned = 0

pub data Step (s : Server) : Server → Type 0 where
  acquire :
      s.phase ≡ waiting
      → 0 < s.permits
      → Step s (record { phase = accepting; permits = s.permits - 1; handlers = s.handlers })
  spawn :
      s.phase ≡ accepting
      → Step s (record { phase = waiting; permits = s.permits; handlers = s.handlers + 1 })
  -- `accept` gave up: `run` returns the error, and the permit is dropped.
  give_up :
      s.phase ≡ accepting
      → Step s (record { phase = draining; permits = s.permits + 1; handlers = s.handlers })
  -- The shutdown future completed while the listener waited or accepted.
  shutdown_waiting :
      s.phase ≡ waiting
      → Step s (record { phase = draining; permits = s.permits; handlers = s.handlers })
  shutdown_accepting :
      s.phase ≡ accepting
      → Step s (record { phase = draining; permits = s.permits + 1; handlers = s.handlers })
  -- A handler's task ends, by a result or a panic: it drops its permit and its sender.
  finish :
      0 < s.handlers
      → Step s (record { phase = s.phase; permits = s.permits + 1; handlers = s.handlers - 1 })
  -- `recv` gives `None` once every sender is dropped.
  complete :
      s.phase ≡ draining
      → s.handlers ≡ 0
      → Step s (record { phase = returned; permits = s.permits; handlers = s.handlers })

pub data Reach : Server → Type 0 where
  here : Reach start
  next : {s t : Server} → Reach s → Step s t → Reach t

record Inv (s : Server) : Type 0 where
  conserved : s.permits + s.handlers + in_hand s.phase ≡ max_connections
  drained : s.phase ≡ returned → s.handlers ≡ 0

Step-Inv : {s t : Server} → Inv s → Step s t → Inv t
unfolding in_hand
Step-Inv v (acquire p h) = ground arith
Step-Inv v (spawn p) = ground arith
Step-Inv v (give_up p) = ground arith
Step-Inv v (shutdown_waiting p) = ground arith
Step-Inv v (shutdown_accepting p) = ground arith
Step-Inv v (finish h) = ground arith
Step-Inv v (complete p h) = ground arith

Reach-Inv : {s : Server} → Reach s → Inv s
Reach-Inv here = unfold in_hand in ground arith
Reach-Inv (next r st) = Step-Inv (Reach-Inv r) st

-- In every reachable state the free permits, the handlers and the permit in the listener's hand
-- are 250 together, so that no more than 250 connections are served at once.
pub Reach-conserved :
    {s : Server}
    → Reach s
    → (s.permits + s.handlers + in_hand s.phase ≡ max_connections) × (s.handlers ≤ max_connections)
Reach-conserved r = let v = Reach-Inv r in (v.conserved, omega (arith, v.conserved))

-- `run` returns only when no handler is left, and every permit is back by then.
pub Reach-returned :
    {s : Server} → Reach s → s.phase ≡ returned → (s.handlers ≡ 0) × (s.permits ≡ max_connections)
unfolding in_hand
Reach-returned r e = let v = Reach-Inv r in (v.drained e, ground (arith, v.drained e, v.conserved))
