-- ===== src/Server/Session/Store.antt =====
-- The database as its clients see it: a map from keys to values.
use tokioconf_2026_workshop.Base.{
  ℕ, ◌+◌, ◌^◌, ◌≤◌, ◌<◌, ◌≡◌, refl, Bool, false, Option, none, some, Bytes, codes, length, same,
  if◌then◌else◌, ltb-false,
}
use mathlib.Core.Option
use mathlib.Core.Path.{fun_ext}
use tokioconf_2026_workshop.Collections.Dict
use tokioconf_2026_workshop.Command.{Command, get, set, ping}
use tokioconf_2026_workshop.Command.Apply.{value_frame}
use tokioconf_2026_workshop.Db
use tokioconf_2026_workshop.Db.{Entry, State, Shared, store}
use tokioconf_2026_workshop.Db.Set.{get-store}
use tokioconf_2026_workshop.Frame.{Frame, simple, bulk, null}

abbrev pub Store : Type 0
Store = Bytes → Option Bytes

abbrev pub put : Bytes → Bytes → Store → Store
put key value st j = if same key j then some value else st j

-- What a command answers, and the map behind it.
abbrev pub answer : Command → Store → Frame × Store
answer (get key) st = (value_frame (st key), st)
answer (set key value expire) st = (simple (codes "OK"), put key value st)
answer (ping none) st = (simple (codes "PONG"), st)
answer (ping (some msg)) st = (bulk msg, st)
answer c st = (null, st)

-- The values can be sent.
abbrev pub IsBounded : Store → Type 0
IsBounded st = (key value : Bytes) → st key ≡ some value → length value < 2 ^ 64

-- The deadline lies within the range of an instant.
abbrev pub Fits : ℕ → ℕ → Option ℕ → Type 0
Fits max now none = Unit
Fits max now (some d) = now + d ≤ max

-- A database whose lock is not poisoned.
abbrev pub live : {S : Type 0} → State S → Shared S
live st = record { state = st; poisoned = false }

abbrev pub deadline : ℕ → Option ℕ → Option ℕ
deadline now expire = Option.map (λ d. now + d) expire

module _ {S : Type 0} where
  -- A value stays until it is purged, also behind its deadline.
  unfoldable pub view : State S → Store
  view st key = Option.map (λ (e : Entry). e.value) (Dict.get key st.entries)

  pub get_lem : (key : Bytes) (st : State S) → Db.get key (live st) ≡ (some (view st key), live st)
  unfolding view Db.get
  get_lem key st = refl

  pub view-store :
      (key value : Bytes) (o : Option ℕ) (st : State S)
      → view (store key value o st) ≡ put key value (view st)
  unfolding view
  view-store key value o st = fun_ext λ j. get-store key value j o st

  pub set_lem :
      (max now : ℕ) (key value : Bytes) (expire : Option ℕ) (st : State S)
      → Fits max now expire
      → (notify : Bool) × (Db.set max now key value expire (live st)
          ≡ (some notify, live (store key value (deadline now expire) st)))
  unfolding Db.set
  set_lem max now key value none st fits = (false, refl)
  set_lem max now key value (some d) st fits =
      (Db.is_next (Db.next_expiration st) (now + d), rw (ltb-false max (now + d) fits))
