-- ===== src/Db/Poison.antt =====
-- An expiration behind the last instant panics under the lock, and the database is lost.
use tokioconf_2026_workshop.Base.{
  ℕ, ◌+◌, ◌<◌, ◌≡◌, refl, true, Option, none, some, inl, inr, arith, Bytes, lt→ltb, Bool-cases,
}
use tokioconf_2026_workshop.Db.{
  Broadcast, Held, State, Shared, lock, get, set, purge_expired_keys, subscribe, publish,
}

lock_poisoned :
    {S A : Type 0} (body : State S → Held (State S) A) (s : Shared S)
    → s.poisoned ≡ true
    → lock body s ≡ (none, s)
unfolding lock
lock_poisoned body s e = rw e

module _ {S : Type 0} where
  -- The state in which `set` leaves the mutex.
  set_overflow :
      (max now duration : ℕ) (key value : Bytes) (s : Shared S)
      → max < now + duration
      → set max now key value (some duration) s
        ≡ (none, record { state = s.state; poisoned = true })
  unfolding set
  set_overflow max now duration key value s h = elim (Bool-cases s.poisoned) [
    | inl e ↦ ground (arith, e)
    | inr e ↦ rw (e, lt→ltb max (now + duration) h)
  ]

module _ (bc : Broadcast) where
  open bc use {Sender}

  -- If `now + duration` lies behind the last instant, `set` panics while it holds the lock, stores
  -- nothing, and leaves the mutex poisoned: every later operation of any connection, and the
  -- background task's purge, panics too.
  pub set-poisons :
      (max now duration : ℕ) (key value : Bytes) (s : Shared Sender)
      → max < now + duration
      → let s' = (set max now key value (some duration) s).1 in
        ((set max now key value (some duration) s).0 ≡ none)
        × (s'.state ≡ s.state)
        × ((k : Bytes) → get k s' ≡ (none, s'))
        × ((m n : ℕ) (k v : Bytes) (e : Option ℕ) → set m n k v e s' ≡ (none, s'))
        × ((k : Bytes) → subscribe bc k s' ≡ (none, s'))
        × ((k v : Bytes) → publish bc k v s' ≡ (none, s'))
        × ((n : ℕ) → purge_expired_keys n s' ≡ (none, s'))
  unfolding set get subscribe publish purge_expired_keys
  set-poisons max now duration key value s h =
      rw (set_overflow max now duration key value s h)
        (refl, refl, λ k. refl, λ m n k v e. refl, λ k. refl, λ k v. refl, λ n. refl)
