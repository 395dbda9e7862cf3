-- ===== src/Server/System/Table.antt =====
-- The database as a plain map of keys to values with deadlines, and what a command and a purge do
-- to it.
use tokioconf_2026_workshop.Base.{
  ℕ, ◌+◌, ◌≡◌, refl, inl, inr, Bool, true, false, ◌||◌, Option, none, some, List, [], ◌∷◌, arith,
  Bytes, ltb, same, if◌then◌else◌, Bool-cases,
}
use mathlib.Core.Path.{fun_ext}
use tokioconf_2026_workshop.Collections.Dict
use tokioconf_2026_workshop.Command.{
  Command, subscribe, unsubscribe, get, set, publish, ping, unknown,
}
use tokioconf_2026_workshop.Db
use tokioconf_2026_workshop.Db.{
  Broadcast, Entry, Shared, State, store, new, purge_expired_keys, shutdown_purge_task,
}
use tokioconf_2026_workshop.Db.Invariant.{IsWellFormed}
use tokioconf_2026_workshop.Db.Purge.{survivor, purge_expired_keys_exact}
use tokioconf_2026_workshop.Db.Set.{set-IsWellFormed}
use tokioconf_2026_workshop.Server.Session.Effects.{acted}

-- A map from keys to values and their deadlines.
abbrev pub Table : Type 0
Table = Bytes → Option Entry

abbrev pub table : {S : Type 0} → Shared S → Table
table s key = Dict.get key s.state.entries

-- What can happen to the map.
pub data Act : Type 0 where
  nothing : Act
  stored : Bytes → Bytes → Option ℕ → Act
  purged : ℕ → Act

abbrev pub perform : Act → Table → Table
perform nothing t = t
perform (stored key value o) t =
    λ k. if same key k then some (record { value = value; expires_at = o }) else t k
perform (purged now) t = λ k. survivor now (t k)

-- The last act comes first.
abbrev pub replay : List Act → Table
replay [] = λ k. none
replay (a ∷ acts) = perform a (replay acts)

-- The deadline lies behind the last instant.
abbrev late : ℕ → ℕ → Option ℕ → Bool
late max now none = false
late max now (some d) = ltb max (now + d)

abbrev deadline : ℕ → Option ℕ → Option ℕ
deadline now none = none
deadline now (some d) = some (now + d)

-- A `SET` stores its value, unless the lock is poisoned or its deadline overflows.
abbrev pub command_act : {S : Type 0} → ℕ → ℕ → Option Command → Shared S → Act
command_act max now (some (set key value expire)) s =
    if s.poisoned || late max now expire then nothing else stored key value (deadline now expire)
command_act max now (some (get key)) s = nothing
command_act max now (some (publish channel payload)) s = nothing
command_act max now (some (subscribe names)) s = nothing
command_act max now (some (unsubscribe names)) s = nothing
command_act max now (some (ping msg)) s = nothing
command_act max now (some (unknown name)) s = nothing
command_act max now none s = nothing

abbrev pub purge_act : {S : Type 0} → ℕ → Shared S → Act
purge_act now s = if s.poisoned || s.state.shutdown then nothing else purged now

module _ {S : Type 0} where
  get-store :
      (key value k : Bytes) (o : Option ℕ) (st : State S)
      → Dict.get k (store key value o st).entries ≡ (
          if same key k
          then some (record { value = value; expires_at = o })
          else Dict.get k st.entries)
  unfolding store
  get-store key value k o st =
      Dict.get-insert key k (record { value = value; expires_at = o }) st.entries

  set-table :
      (max now : ℕ) (key value : Bytes) (expire : Option ℕ) (s : Shared S) (k : Bytes)
      → table (Db.set max now key value expire s).1 k
        ≡ perform (command_act max now (some (set key value expire)) s) (table s) k
  unfolding Db.set
  set-table max now key value none s k = ground (arith, get-store key value k none s.state)
  set-table max now key value (some d) s k =
      ground (arith, get-store key value k (some (now + d)) s.state)

  pub acted-table :
      (max now : ℕ) (c : Option Command) (s : Shared S)
      → table (acted max now c s) ≡ perform (command_act max now c s) (table s)
  acted-table max now (some (set key value expire)) s =
      fun_ext λ k. set-table max now key value expire s k
  acted-table max now (some (get key)) s = refl
  acted-table max now (some (publish channel payload)) s = refl
  acted-table max now (some (subscribe names)) s = refl
  acted-table max now (some (unsubscribe names)) s = refl
  acted-table max now (some (ping msg)) s = refl
  acted-table max now (some (unknown name)) s = refl
  acted-table max now none s = refl

  pub acted-IsWellFormed :
      (max now : ℕ) (c : Option Command) (s : Shared S)
      → IsWellFormed s.state
      → IsWellFormed (acted max now c s).state
  acted-IsWellFormed max now (some (set key value expire)) s h =
      set-IsWellFormed max now key value expire s h
  acted-IsWellFormed max now (some (get key)) s h = h
  acted-IsWellFormed max now (some (publish channel payload)) s h = h
  acted-IsWellFormed max now (some (subscribe names)) s h = h
  acted-IsWellFormed max now (some (unsubscribe names)) s h = h
  acted-IsWellFormed max now (some (ping msg)) s h = h
  acted-IsWellFormed max now (some (unknown name)) s h = h
  acted-IsWellFormed max now none s h = h

  -- A purge that does nothing.
  idle :
      (now : ℕ) (s : Shared S)
      → (s.poisoned || s.state.shutdown) ≡ true
      → (purge_expired_keys now s).1 ≡ s
  unfolding purge_expired_keys
  idle now s e = ground arith

  abbrev pub Purged : (now : ℕ) (s : Shared S) → Type 0
  Purged now s =
      IsWellFormed (purge_expired_keys now s).1.state
      × (table (purge_expired_keys now s).1 ≡ perform (purge_act now s) (table s))

  pub purge_lem : (now : ℕ) (s : Shared S) → IsWellFormed s.state → Purged now s
  purge_lem now s h = elim (Bool-cases (s.poisoned || s.state.shutdown)) [
    | inl off ↦ rw (off, idle now s off) (h, refl)
    | inr on ↦
        let (wake, returns, early, _, ahead, kept, well_formed) =
          purge_expired_keys_exact now s (ground arith) (ground arith) h in
        rw on (well_formed, fun_ext kept)
  ]
