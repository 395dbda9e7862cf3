-- ===== src/Server/System/Listening.antt =====
-- The whole server, seen from its listener: permits, the number of connections, and the shutdown.
use tokioconf_2026_workshop.Base.{
  ℕ, suc, ◌+◌, ◌≡◌, ◌⊎◌, inl, inr, refl, sym, ap, ◌∙◌, subst, List, [], ◌∷◌, ◌++◌, arith, true,
  ◌||◌, length, length-append,
}
use tokioconf_2026_workshop.Db.{Broadcast, purge_expired_keys, shutdown_purge_task}
use tokioconf_2026_workshop.Server.Listener
use tokioconf_2026_workshop.Server.Listener.{
  Server, returned, in_hand, max_connections, Reach-conserved, Reach-returned,
}
use tokioconf_2026_workshop.Server.Session.{Session}
use tokioconf_2026_workshop.Server.System.{
  System, start, Step, acquire, spawn, give_up, shutdown_waiting, shutdown_accepting, work, purge,
  finish, complete, Reach, here, next,
}
use tokioconf_2026_workshop.Std.Platform.{Platform}
use tokioconf_2026_workshop.Std.StreamMap.{StreamMap}

module _ (pf : Platform) (max : ℕ) (bc : Broadcast) (sm : StreamMap bc.Receiver) where
  open sm use {Streams}

  -- What the listener knows of the connections is how many there are.
  abbrev pub summary : System pf max bc sm → Server
  summary s = record { phase = s.phase; permits = s.permits; handlers = length s.sessions }

  replaced :
      (before : List (Session Streams bc.Sender)) (x y : Session Streams bc.Sender)
      (after l : List (Session Streams bc.Sender))
      → l ≡ before ++ x ∷ after
      → length (before ++ y ∷ after) ≡ length l
  replaced before x y after l e =
      omega (arith, ap length e, length-append before (x ∷ after), length-append before (y ∷ after))

  removed :
      (before : List (Session Streams bc.Sender)) (x : Session Streams bc.Sender)
      (after l : List (Session Streams bc.Sender))
      → l ≡ before ++ x ∷ after
      → length l ≡ length (before ++ after) + 1
  removed before x after l e =
      omega (arith, ap length e, length-append before (x ∷ after), length-append before after)

  -- A step of the listener that leaves `n` handlers.
  counted :
      (s t : Server) (n : ℕ)
      → Listener.Step s t
      → t.handlers ≡ n
      → Listener.Step s (record t { handlers = n })
  counted s t n st e = subst (λ k. Listener.Step s (record t { handlers = k })) e st

  -- A step of the server is one of the listener, or the listener does not see it.
  Step-Listener :
      {s t : System pf max bc sm}
      → Step pf max bc sm s t
      → Listener.Step (summary s) (summary t) ⊎ (summary t ≡ summary s)
  Step-Listener (acquire p h) = inl (Listener.acquire p h)
  Step-Listener {s} (spawn p) =
      inl (counted (summary s) _ (suc (length s.sessions)) (Listener.spawn p) (omega arith))
  Step-Listener (give_up p) = inl (Listener.give_up p)
  Step-Listener (shutdown_waiting p) = inl (Listener.shutdown_waiting p)
  Step-Listener (shutdown_accepting p) = inl (Listener.shutdown_accepting p)
  Step-Listener {s} (work before x after e at o) = inr (
      ap (λ (n : ℕ). record { phase = s.phase; permits = s.permits; handlers = n })
        (replaced before x _ after s.sessions at))
  Step-Listener (purge now) = inr refl
  Step-Listener {s} (finish before x after r at over) =
      let e = removed before x after s.sessions at in
      inl (
        counted (summary s) _ (length (before ++ after)) (Listener.finish (omega (arith, e)))
          (omega (arith, e)))
  Step-Listener (complete p none_left) = inl (Listener.complete p (ap length none_left))

  -- Every reachable state of the whole server is, for the listener, one that the protocol of permits
  -- reaches.
  Reach-summary : {s : System pf max bc sm} → Reach pf max bc sm s → Listener.Reach (summary s)
  unfolding start
  Reach-summary here = Listener.here
  Reach-summary {s} (next {s = r} h st) = elim (Step-Listener st) [
    | inl moved ↦ Listener.next (Reach-summary h) moved
    | inr stood ↦ subst Listener.Reach (sym stood) (Reach-summary h)
  ]

  -- Whatever the clients send and however the tasks take turns, the phase, the permits and the
  -- number of connections of a reachable state are those of a state that the listener's protocol
  -- reaches; the free permits, the open connections and the permit in the listener's hand are 250
  -- together.
  pub Reach-refines :
      (s : System pf max bc sm)
      → Reach pf max bc sm s
      → Listener.Reach (summary s)
        × (s.permits + length s.sessions + in_hand s.phase ≡ max_connections)
  Reach-refines s r = (Reach-summary r, (Reach-conserved (Reach-summary r)).0)

  nobody : (l : List (Session Streams bc.Sender)) → length l ≡ 0 → l ≡ []
  nobody [] e = refl
  nobody (x ∷ l) e = absurd (omega (arith, e))

  pub drained :
      (s : System pf max bc sm) → Reach pf max bc sm s → s.phase ≡ returned → s.sessions ≡ []
  drained s r e = nobody s.sessions (Reach-returned (Reach-summary r) e).0

  occupied :
      (before : List (Session Streams bc.Sender)) (x : Session Streams bc.Sender)
      (after : List (Session Streams bc.Sender))
      → [] ≡ before ++ x ∷ after
      → ⊥
  occupied before x after e = omega (arith, ap length e, length-append before (x ∷ after))

  abbrev Told : System pf max bc sm → Type 0
  Told s = s.phase ≡ returned → (s.shared.poisoned || s.shared.state.shutdown) ≡ true

  Step-Told :
      {s t : System pf max bc sm}
      → (s.phase ≡ returned → s.sessions ≡ [])
      → Told s
      → Step pf max bc sm s t
      → Told t
  unfolding purge_expired_keys shutdown_purge_task
  Step-Told empty told (acquire p h) = λ e. cc
  Step-Told empty told (spawn p) = λ e. cc
  Step-Told empty told (give_up p) = λ e. cc
  Step-Told empty told (shutdown_waiting p) = λ e. cc
  Step-Told empty told (shutdown_accepting p) = λ e. cc
  Step-Told empty told (work before x after ev at o) =
      λ e. absurd (occupied before x after (sym (empty e) ∙ at))
  Step-Told empty told (purge now) = λ e. ground (arith, told e)
  Step-Told empty told (finish before x after r at over) =
      λ e. absurd (occupied before x after (sym (empty e) ∙ at))
  Step-Told empty told (complete p none_left) = λ e. ground arith

  Reach-Told : {s : System pf max bc sm} → Reach pf max bc sm s → Told s
  unfolding start
  Reach-Told here = λ e. cc
  Reach-Told (next {s = r} h st) = Step-Told (drained r h) (Reach-Told h) st

  -- When `run` has returned, every connection's task has ended and every permit is back; and the
  -- background task has been told to stop, unless the database's lock is poisoned.
  pub Reach-stopped :
      (s : System pf max bc sm)
      → Reach pf max bc sm s
      → s.phase ≡ returned
      → (s.sessions ≡ [])
        × (s.permits ≡ max_connections)
        × ((s.shared.poisoned || s.shared.state.shutdown) ≡ true)
  Reach-stopped s r e = (drained s r e, (Reach-returned (Reach-summary r) e).1, Reach-Told r e)
