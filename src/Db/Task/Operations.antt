-- ===== src/Db/Task/Operations.antt =====
-- What an operation of a connection leaves alone.
use tokioconf_2026_workshop.Base.{
  ℕ, ◌≡◌, refl, ap, ◌∙◌, inl, inr, Bool, true, false, Option, none, some, List, arith, Bytes,
  Bool-cases,
}
use tokioconf_2026_workshop.Collections.Dict
use tokioconf_2026_workshop.Db.{
  Broadcast, State, Shared, get, set, subscribe, publish, attach, deliver,
}
use tokioconf_2026_workshop.Db.Invariant.{IsWellFormed}
use tokioconf_2026_workshop.Db.Set.{InTime, set-InTime}
use tokioconf_2026_workshop.Db.Task.{asked}

module _ {S : Type 0} where
  -- An operation that leaves the values, the deadlines, the flag and the lock alone.
  pub record Harmless (s t : Shared S) : Type 0 where
    pub same_entries : t.state.entries ≡ s.state.entries
    pub same_deadlines : t.state.expirations ≡ s.state.expirations
    pub same_flag : t.state.shutdown ≡ s.state.shutdown
    pub same_lock : t.poisoned ≡ s.poisoned

  pub unchanged-Harmless : (s : Shared S) → Harmless s s
  unchanged-Harmless s = record {
    same_entries = refl;
    same_deadlines = refl;
    same_flag = refl;
    same_lock = refl;
  }

  pub Harmless-trans : (s t u : Shared S) → Harmless s t → Harmless t u → Harmless s u
  Harmless-trans s t u h k = record {
    same_entries = k.same_entries ∙ h.same_entries;
    same_deadlines = k.same_deadlines ∙ h.same_deadlines;
    same_flag = k.same_flag ∙ h.same_flag;
    same_lock = k.same_lock ∙ h.same_lock;
  }

  pub Harmless-IsWellFormed :
      (s t : Shared S) → Harmless s t → IsWellFormed s.state → IsWellFormed t.state
  Harmless-IsWellFormed s t h w = rw (h.same_entries, h.same_deadlines) w

  rerouted-Harmless :
      (st : State S) (routes : List (Bytes × S)) (poisoned : Bool)
      → Harmless
          (record { state = st; poisoned = poisoned })
          (record { state = record st { pub_sub = routes }; poisoned = poisoned })
  rerouted-Harmless st routes poisoned = record {
    same_entries = refl;
    same_deadlines = refl;
    same_flag = refl;
    same_lock = refl;
  }

  pub get-Harmless : (key : Bytes) (s : Shared S) → Harmless s (get key s).1
  unfolding get
  get-Harmless key s = elim (Bool-cases s.poisoned) [
    | inl e ↦ rw e (rerouted-Harmless s.state s.state.pub_sub true)
    | inr e ↦ rw e (rerouted-Harmless s.state s.state.pub_sub false)
  ]

  pub set-shutdown :
      (max now : ℕ) (key value : Bytes) (expire : Option ℕ) (s : Shared S)
      → (set max now key value expire s).1.state.shutdown ≡ s.state.shutdown
  unfolding set
  set-shutdown max now key value none s = ground arith
  set-shutdown max now key value (some d) s = ground arith

  -- A `set` that panics changes nothing but the lock.
  set-none :
      (max now : ℕ) (key value : Bytes) (expire : Option ℕ) (s : Shared S)
      → (set max now key value expire s).0 ≡ none
      → (set max now key value expire s).1.state ≡ s.state
  unfolding set
  set-none max now key value none s h = ground arith
  set-none max now key value (some d) s h = ground arith

  -- A `set` that asks for no notification leaves the alarm in time.
  pub set-asked :
      (max now : ℕ) (key value : Bytes) (expire : Option ℕ) (s : Shared S) (o : Option ℕ)
      (a : Option Bool)
      → (set max now key value expire s).0 ≡ a
      → asked a ≡ 0
      → InTime o s.state.expirations
      → InTime o (set max now key value expire s).1.state.expirations
  unfolding asked
  set-asked max now key value expire s o none e quiet h =
      rw (ap (λ (st : State S). st.expirations) (set-none max now key value expire s e)) h
  set-asked max now key value expire s o (some true) e quiet h = absurd (omega arith)
  set-asked max now key value expire s o (some false) e quiet h =
      set-InTime max now key value expire s o e h

module _ (bc : Broadcast) where
  open bc use {Sender}

  pub subscribe-Harmless : (key : Bytes) (s : Shared Sender) → Harmless s (subscribe bc key s).1
  unfolding subscribe attach
  subscribe-Harmless key s = elim (Bool-cases s.poisoned) [
    | inl e ↦ rw e (rerouted-Harmless s.state s.state.pub_sub true)
    | inr e ↦ rw e (by_sender (Dict.get key s.state.pub_sub))
  ]
    where
      by_sender :
          (o : Option Sender)
          → Harmless
              (record { state = s.state; poisoned = false })
              (record { state = (attach bc key s.state o).1; poisoned = false })
      by_sender none = rerouted-Harmless s.state _ false
      by_sender (some tx) = rerouted-Harmless s.state _ false

  pub publish-Harmless :
      (key value : Bytes) (s : Shared Sender) → Harmless s (publish bc key value s).1
  unfolding publish deliver
  publish-Harmless key value s = elim (Bool-cases s.poisoned) [
    | inl e ↦ rw e (rerouted-Harmless s.state s.state.pub_sub true)
    | inr e ↦ rw e (by_sender (Dict.get key s.state.pub_sub))
  ]
    where
      by_sender :
          (o : Option Sender)
          → Harmless
              (record { state = s.state; poisoned = false })
              (record { state = (deliver bc key value s.state o).1; poisoned = false })
      by_sender none = rerouted-Harmless s.state _ false
      by_sender (some tx) = rerouted-Harmless s.state _ false
