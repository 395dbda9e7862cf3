-- ===== src/Server/System.antt =====
-- The whole server: `server::run` with its listener, every connection's task, the background task's
-- purges, and the one database that they share.
pub mod Listening
pub mod Table
pub mod History
use tokioconf_2026_workshop.Base.{
  ℕ, ◌+◌, ◌-◌, ◌<◌, ◌≡◌, false, List, [], ◌∷◌, ◌++◌, Outcome, length,
}
use tokioconf_2026_workshop.Connection
use tokioconf_2026_workshop.Connection.{Connection}
use tokioconf_2026_workshop.Db.{Broadcast, Shared, new, purge_expired_keys, shutdown_purge_task}
use tokioconf_2026_workshop.Frame.{Message}
use tokioconf_2026_workshop.Server.Listener.{
  Phase, waiting, accepting, draining, returned, max_connections,
}
use tokioconf_2026_workshop.Server.Session
use tokioconf_2026_workshop.Server.Session.{
  Session, Mode, serving, ended, Event, delivered, read, message, shut_down, others, new_shutdown,
}
use tokioconf_2026_workshop.Std.Platform.{Platform}
use tokioconf_2026_workshop.Std.StreamMap.{StreamMap}

-- A connection sees the shutdown signal once its sender is dropped, behind the `select!` of `run`.
abbrev pub Occurs : {Sender : Type 0} → Phase → Event Sender → Type 0
Occurs p (delivered a) = Unit {0}
Occurs p (read now) = Unit {0}
Occurs p (message channel msg) = Unit {0}
Occurs p shut_down = p ≡ draining
Occurs p (others s) = ⊥

module _ (pf : Platform) (max : ℕ) (bc : Broadcast) (sm : StreamMap bc.Receiver) where
  open sm use {Streams}

  -- A session holds one permit, and one sender of the completion channel.
  pub record System : Type 0 where
    pub phase : Phase
    pub permits : ℕ
    pub sessions : List (Session Streams bc.Sender)
    pub shared : Shared bc.Sender

  unfoldable pub start : System
  unfolding new
  start = record { phase = waiting; permits = max_connections; sessions = []; shared = new }

  -- `Handler { db, connection, shutdown, .. }`
  unfoldable pub new_handler : Shared bc.Sender → Session Streams bc.Sender
  unfolding Connection.new
  new_handler s = record {
    connection = Connection.new;
    incoming = [];
    shared = s;
    shutdown = new_shutdown;
    mode = serving;
  }

  -- A step of one connection, on the database as the others have left it.
  unfoldable pub turn :
      Event bc.Sender → Shared bc.Sender → Session Streams bc.Sender → Session Streams bc.Sender
  unfolding Session.step
  turn e s x = Session.step pf max bc sm e (Session.step pf max bc sm (others s) x)

  pub data Step (s : System) : System → Type 0 where
    acquire :
        s.phase ≡ waiting
        → 0 < s.permits
        → Step s (record s { phase = accepting; permits = s.permits - 1 })
    spawn :
        s.phase ≡ accepting
        → Step s (record s { phase = waiting; sessions = new_handler s.shared ∷ s.sessions })
    -- `accept` gave up: `run` returns the error, and the permit is dropped.
    give_up : s.phase ≡ accepting → Step s (record s { phase = draining; permits = s.permits + 1 })
    -- The shutdown future completed while the listener waited or accepted.
    shutdown_waiting : s.phase ≡ waiting → Step s (record s { phase = draining })
    shutdown_accepting :
        s.phase ≡ accepting → Step s (record s { phase = draining; permits = s.permits + 1 })
    work :
        (before : List (Session Streams bc.Sender)) (x : Session Streams bc.Sender)
        (after : List (Session Streams bc.Sender)) (e : Event bc.Sender)
        → s.sessions ≡ before ++ x ∷ after
        → Occurs s.phase e
        → Step s (record s {
          sessions = before ++ turn e s.shared x ∷ after;
          shared = (turn e s.shared x).shared;
        })
    purge : (now : ℕ) → Step s (record s { shared = (purge_expired_keys now s.shared).1 })
    -- The task of a connection ends, by a result or a panic: it drops its permit and its sender.
    finish :
        (before : List (Session Streams bc.Sender)) (x : Session Streams bc.Sender)
        (after : List (Session Streams bc.Sender)) (r : Outcome Message (Unit {0}))
        → s.sessions ≡ before ++ x ∷ after
        → x.mode ≡ ended r
        → Step s (record s { permits = s.permits + 1; sessions = before ++ after })
    -- `recv` gives `None` once every sender is dropped; then `run` returns, and `DbDropGuard` is
    -- dropped.
    complete :
        s.phase ≡ draining
        → s.sessions ≡ []
        → Step s (record s { phase = returned; shared = (shutdown_purge_task s.shared).1 })

  pub data Reach : System → Type 0 where
    here : Reach start
    next : {s t : System} → Reach s → Step s t → Reach t
