-- ===== src/Server/System/History.antt =====
-- The whole server, seen from its clients: to a plain map, the `SET`s that the connections execute
-- and the purges of the background task are applied one after another.
use tokioconf_2026_workshop.Base.{
  ℕ, ◌≡◌, refl, ap, ◌∙◌, inl, inr, false, some, List, [], ◌∷◌, Bytes, Bool-cases,
}
use mathlib.Core.Option
use tokioconf_2026_workshop.Collections.Dict
use tokioconf_2026_workshop.Db
use tokioconf_2026_workshop.Db.{
  Broadcast, Entry, Shared, State, store, new, purge_expired_keys, shutdown_purge_task,
}
use tokioconf_2026_workshop.Db.Invariant.{IsWellFormed, new-IsWellFormed}
use tokioconf_2026_workshop.Db.Task.Operations.{Harmless, Harmless-IsWellFormed}
use tokioconf_2026_workshop.Server.Listener.{Phase}
use tokioconf_2026_workshop.Server.Session.{
  Session, Event, delivered, read, message, shut_down, others, step,
}
use tokioconf_2026_workshop.Server.Session.Effects.{acted}
use tokioconf_2026_workshop.Server.Session.Turn.{Own, instant, commanded, step-Harmless}
use tokioconf_2026_workshop.Server.System.{
  Occurs, System, start, turn, Step, acquire, spawn, give_up, shutdown_waiting, shutdown_accepting,
  work, purge, finish, complete, Reach, here, next,
}
use tokioconf_2026_workshop.Std.Platform.{Platform}
use tokioconf_2026_workshop.Std.StreamMap.{StreamMap}
use tokioconf_2026_workshop.Server.System.Table.{
  Table, table, Act, nothing, perform, replay, command_act, purge_act, acted-table,
  acted-IsWellFormed, purge_lem,
}

module _ (pf : Platform) (max : ℕ) (bc : Broadcast) (sm : StreamMap bc.Receiver) where
  open sm use {Streams}

  Occurs-Own : (p : Phase) (e : Event bc.Sender) → Occurs p e → Own e
  Occurs-Own p (delivered a) o = tt
  Occurs-Own p (read now) o = tt
  Occurs-Own p (message channel msg) o = tt
  Occurs-Own p shut_down o = tt
  Occurs-Own p (others s) o = absurd o

  -- What a step of the server does to the map.
  unfoldable pub act : {s t : System pf max bc sm} → Step pf max bc sm s t → Act
  unfolding commanded
  act (acquire p h) = nothing
  act (spawn p) = nothing
  act (give_up p) = nothing
  act (shutdown_waiting p) = nothing
  act (shutdown_accepting p) = nothing
  act {s} (work before x after e at o) =
      command_act max (instant e) (commanded pf max bc sm e (record x { shared = s.shared }))
        s.shared
  act {s} (purge now) = purge_act now s.shared
  act (finish before x after r at over) = nothing
  act (complete p none_left) = nothing

  -- What happened on the way to a state, the last act first.
  unfoldable pub history : {s : System pf max bc sm} → Reach pf max bc sm s → List Act
  unfolding act
  history here = []
  history (next r st) = act st ∷ history r

  turn-Harmless :
      (e : Event bc.Sender) (s : Shared bc.Sender) (x : Session Streams bc.Sender)
      → Own e
      → Harmless
          (acted max (instant e) (commanded pf max bc sm e (record x { shared = s })) s)
          (turn pf max bc sm e s x).shared
  unfolding turn step
  turn-Harmless e s x own = step-Harmless pf max bc sm e (record x { shared = s }) own

  Harmless-table : {s t : Shared bc.Sender} → Harmless s t → table t ≡ table s
  Harmless-table h = ap {B = Table} (λ es k. Dict.get k es) h.same_entries

  record Kept (s t : System pf max bc sm) (a : Act) : Type 0 where
    well_formed : IsWellFormed t.shared.state
    performed : table t.shared ≡ perform a (table s.shared)

  Step-Kept :
      {s t : System pf max bc sm}
      → IsWellFormed s.shared.state
      → (st : Step pf max bc sm s t) → Kept s t (act st)
  unfolding act shutdown_purge_task
  Step-Kept w (acquire p h) = record { well_formed = w; performed = refl }
  Step-Kept w (spawn p) = record { well_formed = w; performed = refl }
  Step-Kept w (give_up p) = record { well_formed = w; performed = refl }
  Step-Kept w (shutdown_waiting p) = record { well_formed = w; performed = refl }
  Step-Kept w (shutdown_accepting p) = record { well_formed = w; performed = refl }
  Step-Kept {s} w (work before x after e at o) =
      let c = commanded pf max bc sm e (record x { shared = s.shared }) in
      let h = turn-Harmless e s.shared x (Occurs-Own s.phase e o) in
      record {
        well_formed = Harmless-IsWellFormed _ _ h (acted-IsWellFormed max (instant e) c s.shared w);
        performed = Harmless-table h ∙ acted-table max (instant e) c s.shared;
      }
  Step-Kept {s} w (purge now) =
      let (well_formed, performed) = purge_lem now s.shared w in
      record { well_formed = well_formed; performed = performed }
  Step-Kept w (finish before x after r at over) = record { well_formed = w; performed = refl }
  Step-Kept {s} w (complete p none_left) = elim (Bool-cases s.shared.poisoned) [
    | inl e ↦ rw e (record { well_formed = w; performed = refl })
    | inr e ↦ rw e (record { well_formed = w; performed = refl })
  ]

  -- Whatever the clients send, and however the connections, the listener and the background task
  -- take turns, the database of the server stays well-formed.
  pub Reach-IsWellFormed :
      (s : System pf max bc sm) → Reach pf max bc sm s → IsWellFormed s.shared.state
  unfolding start
  Reach-IsWellFormed _ here = new-IsWellFormed bc.Sender
  Reach-IsWellFormed _ (next {s} r st) = (Step-Kept (Reach-IsWellFormed s r) st).well_formed

  pub Reach-table :
      {s : System pf max bc sm} (r : Reach pf max bc sm s) → table s.shared ≡ replay (history r)
  unfolding start new history
  Reach-table here = unfold Dict.get in refl
  Reach-table (next {s} r st) =
      (Step-Kept (Reach-IsWellFormed s r) st).performed ∙ ap (perform (act st)) (Reach-table r)

  get-table :
      (s : Shared bc.Sender) (key : Bytes)
      → s.poisoned ≡ false
      → (Db.get key s).0 ≡ some (Option.map (λ (e : Entry). e.value) (table s key))
  unfolding Db.get
  get-table s key live = rw live refl

  -- In every reachable state of the server whose lock is not poisoned, a `GET` of any key finds the
  -- value that a plain map holds to which the executed `SET`s and the purges were applied in the
  -- order in which they came.
  pub Reach-get :
      (s : System pf max bc sm) (key : Bytes) (r : Reach pf max bc sm s)
      → s.shared.poisoned ≡ false
      → (Db.get key s.shared).0
        ≡ some (Option.map (λ (e : Entry). e.value) (replay (history r) key))
  Reach-get s key r live =
      get-table s.shared key live
      ∙ ap (λ (t : Table). some (Option.map (λ (e : Entry). e.value) (t key))) (Reach-table r)
