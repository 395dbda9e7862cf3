-- ===== src/Db.antt =====
-- mini-redis/src/db.rs: the shared state behind its mutex.
pub mod Invariant
pub mod Set
pub mod Purge
pub mod Poison
pub mod Task
use tokioconf_2026_workshop.Base.{
  ℕ, ◌+◌, Bool, true, false, Option, none, some, List, [], ◌∷◌, Bytes, ltb, if◌then◌else◌,
}
use mathlib.Core.Option
use tokioconf_2026_workshop.Collections.Dict
use tokioconf_2026_workshop.Collections.Schedule
use tokioconf_2026_workshop.Collections.Schedule.{Deadline}

-- `tokio::sync::broadcast`, as far as the database calls it. `send` has no number if there is no
-- receiver. What follows a law is what its documentation says.
pub record Broadcast : Type 1 where
  pub Sender : Type 0
  pub Receiver : Type 0
  pub channel : ℕ → Sender × Receiver
  pub subscribe : Sender → Sender × Receiver
  pub send : Sender → Bytes → Sender × Option ℕ

pub record Entry : Type 0 where
  pub value : Bytes
  pub expires_at : Option ℕ

-- Instants are numbers of nanoseconds.
pub record State (Sender : Type 0) : Type 0 where
  pub entries : List (Bytes × Entry)
  pub pub_sub : List (Bytes × Sender)
  pub expirations : List Deadline
  pub shutdown : Bool

-- The mutex: a panic while the lock is held poisons it.
pub record Shared (Sender : Type 0) : Type 0 where
  pub state : State Sender
  pub poisoned : Bool

-- How the code under the lock ends.
pub data Held (S A : Type 0) : Type 0 where
  released : A → S → Held S A
  panicked : S → Held S A

-- The time of the first expiration.
unfoldable pub first_time : List Deadline → Option ℕ
first_time [] = none
first_time (d ∷ ds) = some d.0

-- `.map(|expiration| expiration > when).unwrap_or(true)`
unfoldable pub is_next : Option ℕ → ℕ → Bool
is_next none when = true
is_next (some t) when = ltb when t

-- The expiration of the value that was replaced is forgotten.
unfoldable pub forget : Option Entry → Bytes → List Deadline → List Deadline
unfolding Schedule.remove
forget none key ds = ds
forget (some prev) key ds = elim prev.expires_at [
  | none ↦ ds
  | some when ↦ Schedule.remove (when, key) ds
]

unfoldable pub track : Option ℕ → Bytes → List Deadline → List Deadline
unfolding Schedule.insert
track none key ds = ds
track (some when) key ds = Schedule.insert (when, key) ds

-- The loop of `purge_expired_keys`; the first element of the set is the one removed.
unfoldable pub purge_loop :
    ℕ → List (Bytes × Entry) → List Deadline → Option ℕ × List (Bytes × Entry) × List Deadline
unfolding Dict.remove
purge_loop now entries [] = (none, entries, [])
purge_loop now entries ((when, key) ∷ ds) =
    let rest = purge_loop now (Dict.remove key entries) ds in
    if ltb now when then (some when, entries, (when, key) ∷ ds) else rest

module _ {S : Type 0} where
  settle : {A : Type 0} → Held (State S) A → Option A × Shared S
  settle (released a st) = (some a, record { state = st; poisoned = false })
  settle (panicked st) = (none, record { state = st; poisoned = true })

  -- `self.shared.state.lock().unwrap()` and what is done until the guard is dropped; `none` is a
  -- panic of the caller.
  unfoldable pub lock : {A : Type 0} → (State S → Held (State S) A) → Shared S → Option A × Shared S
  unfolding settle
  lock body s = if s.poisoned then (none, s) else settle (body s.state)

  -- `Db::new`.
  unfoldable pub new : Shared S
  new = record {
    state = record { entries = []; pub_sub = []; expirations = []; shutdown = false };
    poisoned = false;
  }

  unfoldable pub get_held : Bytes → State S → Held (State S) (Option Bytes)
  unfolding Dict.get
  get_held key st = released (Option.map (λ (e : Entry). e.value) (Dict.get key st.entries)) st

  unfoldable pub get : Bytes → Shared S → Option (Option Bytes) × Shared S
  unfolding lock get_held
  get key = lock (get_held key)

  unfoldable pub next_expiration : State S → Option ℕ
  unfolding first_time
  next_expiration st = first_time st.expirations

  -- `set` once the deadline is known.
  unfoldable pub store : Bytes → Bytes → Option ℕ → State S → State S
  unfolding forget track Dict.get Dict.insert
  store key value expires_at st = record st {
    entries = Dict.insert key (record { value = value; expires_at = expires_at }) st.entries;
    expirations = track expires_at key (forget (Dict.get key st.entries) key st.expirations);
  }

  -- `Instant::now() + duration` panics behind the last instant `max`. The result says whether the
  -- background task is to be notified.
  unfoldable pub set_held : ℕ → ℕ → Bytes → Bytes → Option ℕ → State S → Held (State S) Bool
  unfolding store is_next next_expiration
  set_held max now key value none st = released false (store key value none st)
  set_held max now key value (some duration) st =
      if ltb max (now + duration)
      then panicked st
      else released (is_next (next_expiration st) (now + duration))
          (store key value (some (now + duration)) st)

  unfoldable pub set : ℕ → ℕ → Bytes → Bytes → Option ℕ → Shared S → Option Bool × Shared S
  unfolding lock set_held
  set max now key value expire = lock (set_held max now key value expire)

  unfoldable pub shutdown_held : State S → Held (State S) (Unit {0})
  shutdown_held st = released tt (record st { shutdown = true })

  unfoldable pub shutdown_purge_task : Shared S → Option (Unit {0}) × Shared S
  unfolding lock shutdown_held
  shutdown_purge_task = lock shutdown_held

  unfoldable pub is_shutdown : Shared S → Option Bool × Shared S
  unfolding lock
  is_shutdown = lock (λ st. released st.shutdown st)

  unfoldable pub purge_held : ℕ → State S → Held (State S) (Option ℕ)
  unfolding purge_loop
  purge_held now st =
      let (next, entries, ds) = purge_loop now st.entries st.expirations in
      if st.shutdown
      then released none st
      else released next (record st { entries = entries; expirations = ds })

  unfoldable pub purge_expired_keys : ℕ → Shared S → Option (Option ℕ) × Shared S
  unfolding lock purge_held
  purge_expired_keys now = lock (purge_held now)

module _ (bc : Broadcast) where
  open bc use {Sender, Receiver}

  unfoldable pub attach : Bytes → State Sender → Option Sender → Receiver × State Sender
  unfolding Dict.insert
  attach key st (some tx) =
      let (tx', rx) = bc.subscribe tx in
      (rx, record st { pub_sub = Dict.insert key tx' st.pub_sub })
  attach key st none =
      let (tx, rx) = bc.channel 1024 in (rx, record st { pub_sub = Dict.insert key tx st.pub_sub })

  unfoldable pub subscribe : Bytes → Shared Sender → Option Receiver × Shared Sender
  unfolding lock attach Dict.get
  subscribe key =
      lock λ st. let (rx, st') = attach key st (Dict.get key st.pub_sub) in released rx st'

  unfoldable pub deliver : Bytes → Bytes → State Sender → Option Sender → ℕ × State Sender
  unfolding Dict.insert
  deliver key value st none = (0, st)
  deliver key value st (some tx) =
      let (tx', n) = bc.send tx value in
      (Option.get_or n 0, record st { pub_sub = Dict.insert key tx' st.pub_sub })

  unfoldable pub publish : Bytes → Bytes → Shared Sender → Option ℕ × Shared Sender
  unfolding lock deliver Dict.get
  publish key value =
      lock λ st. let (n, st') = deliver key value st (Dict.get key st.pub_sub) in released n st'
