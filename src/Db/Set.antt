-- ===== src/Db/Set.antt =====
-- `Db::set`: the value is found again, the invariant holds, and no expiration is missed.
use tokioconf_2026_workshop.Base.{
  ℕ, ◌+◌, ◌≤◌, ◌≡◌, refl, inl, inr, Bool, false, Option, none, some, List, [], ◌∷◌, arith, Bytes,
  ltb, same, if◌then◌else◌, All, Bool-cases,
}
use mathlib.Core.Option
use tokioconf_2026_workshop.Collections.Dict
use tokioconf_2026_workshop.Collections.Schedule
use tokioconf_2026_workshop.Collections.Schedule.{
  Deadline, IsOrdered, insert, remove, less, All-remove, All-insert_any,
}
use tokioconf_2026_workshop.Db.{
  Entry, State, Shared, get, set, store, forget, first_time, next_expiration, is_next,
}
use tokioconf_2026_workshop.Db.Invariant.{IsWellFormed, store-IsWellFormed}

module _ {S : Type 0} where
  -- Whatever `set` is given, and also where it panics, a well-formed database stays well-formed.
  pub set-IsWellFormed :
      (max now : ℕ) (key value : Bytes) (expire : Option ℕ) (s : Shared S)
      → IsWellFormed s.state
      → IsWellFormed (set max now key value expire s).1.state
  unfolding set
  set-IsWellFormed max now key value expire s h = elim (Bool-cases s.poisoned) [
    | inl e ↦ rw e h
    | inr e ↦ rw e (held expire)
  ]
    where
      held :
          (o : Option ℕ)
          → IsWellFormed
              (set max now key value o (record { state = s.state; poisoned = false })).1.state
      held none = store-IsWellFormed key value none s.state h
      held (some d) = elim (Bool-cases (ltb max (now + d))) [
        | inl e ↦ rw e h
        | inr e ↦ rw e (store-IsWellFormed key value (some (now + d)) s.state h)
      ]

  pub get-store :
      (key value j : Bytes) (o : Option ℕ) (st : State S)
      → Option.map (λ (e : Entry). e.value) (Dict.get j (store key value o st).entries) ≡ (
          if same key j
          then some value
          else Option.map (λ (e : Entry). e.value) (Dict.get j st.entries))
  unfolding store
  get-store key value j o st =
      let e : Entry = record { value = value; expires_at = o } in
      ground (arith, Dict.get-insert key j e st.entries)

  -- After a `set` that did not panic, `get` of the same key finds the new value, and `get` of any
  -- other key what it found before.
  pub get-set :
      (max now : ℕ) (key value j : Bytes) (expire : Option ℕ) (s : Shared S) (notified : Bool)
      → (set max now key value expire s).0 ≡ some notified
      → (get j (set max now key value expire s).1).0
        ≡ (if same key j then some (some value) else (get j s).0)
  unfolding set get
  get-set max now key value j none s notified h = ground (arith, get-store key value j none s.state)
  get-set max now key value j (some d) s notified h =
      ground (arith, get-store key value j (some (now + d)) s.state)

some_bool : {a b : Bool} → some a ≡ some b → a ≡ b
some_bool h = cc

-- A background task that sleeps until the given time, or that has no timer, is in time for every
-- expiration.
abbrev pub InTime : Option ℕ → List Deadline → Type 0
InTime none ds = ds ≡ []
InTime (some w) ds = All (λ d. w ≤ d.0) ds

forget-InTime :
    (w : Option ℕ) (prev : Option Entry) (key : Bytes) (ds : List Deadline)
    → InTime w ds
    → InTime w (forget prev key ds)
unfolding forget
forget-InTime w none key ds h = h
forget-InTime w (some e) key ds h = by_time w e.expires_at h
  where
    by_time :
        (w : Option ℕ) (o : Option ℕ)
        → InTime w ds
        → InTime w (forget (some (record { value = e.value; expires_at = o })) key ds)
    by_time w none h = h
    by_time none (some u) h = rw h (unfold Schedule.remove in refl)
    by_time (some w) (some u) h = All-remove (λ d. w ≤ d.0) (u, key) ds h

-- Where the new deadline is not the first one, an alarm in time stays in time.
later-InTime :
    (w : Option ℕ) (when : ℕ) (key : Bytes) (ds es : List Deadline)
    → is_next (first_time ds) when ≡ false
    → InTime w ds
    → InTime w es
    → InTime w (insert (when, key) es)
unfolding is_next first_time
later-InTime w when key [] es e h k = cc
later-InTime none when key (d ∷ ds) es e h k = cc
later-InTime (some w) when key (d ∷ ds) es e (hd, h) k =
    All-insert_any (λ f. w ≤ f.0) (when, key) es (ground arith) k

module _ {S : Type 0} where
  -- `set` returned without asking to notify the background task. If the task was in time for
  -- every expiration before, it is in time for every expiration after.
  pub set-InTime :
      (max now : ℕ) (key value : Bytes) (expire : Option ℕ) (s : Shared S) (w : Option ℕ)
      → (set max now key value expire s).0 ≡ some false
      → InTime w s.state.expirations
      → InTime w (set max now key value expire s).1.state.expirations
  unfolding set
  set-InTime max now key value expire s w e h = elim (Bool-cases s.poisoned) [
    | inl p ↦ rw p h
    | inr p ↦ rw p (held expire (rw p at e))
  ]
    where
      after : Option ℕ → Option Bool × Shared S
      after o = set max now key value o (record { state = s.state; poisoned = false })

      held : (o : Option ℕ) → (after o).0 ≡ some false → InTime w (after o).1.state.expirations
      held none e = forget-InTime w _ key s.state.expirations h
      held (some d) e = elim (Bool-cases (ltb max (now + d))) [
        | inl q ↦ rw q h
        | inr q ↦
            let not_first : is_next (next_expiration s.state) (now + d) ≡ false =
              some_bool (rw q at e) in
            rw q (
              later-InTime w (now + d) key s.state.expirations _ not_first h
                (forget-InTime w _ key s.state.expirations h))
      ]
