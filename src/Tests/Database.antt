-- ===== src/Tests/Database.antt =====
-- The database at concrete inputs.
use tokioconf_2026_workshop.Base.{
  ℕ, ◌+◌, ◌<◌, ◌≡◌, refl, true, false, Option, some, none, [], arith, Bytes, codes, same, All,
}
use tokioconf_2026_workshop.Collections.Dict
use tokioconf_2026_workshop.Collections.Schedule
use tokioconf_2026_workshop.Db.{
  Broadcast, Shared, new, get, set, store, purge_expired_keys, subscribe, publish,
}
use tokioconf_2026_workshop.Db.Invariant.{IsWellFormed, new-IsWellFormed, store-IsWellFormed}
use tokioconf_2026_workshop.Db.Poison.{set-poisons}
use tokioconf_2026_workshop.Db.Purge.{survivor, Attained, purge_expired_keys_exact}
use tokioconf_2026_workshop.Db.Set.{InTime}

abbrev Sender : Type 0
Sender = ℕ

-- A sender that counts its receivers.
abbrev pub counting : Broadcast
counting = record {
  Sender = ℕ;
  Receiver = Unit {0};
  channel = λ n. (1, tt);
  subscribe = λ n. (n + 1, tt);
  send = λ n v. (n, some n);
}

-- One value that expires at 5, and one that stays.
abbrev two_keys : Shared Sender
two_keys = record {
  state = store (codes "b") (codes "2") none (
      store (codes "a") (codes "1") (some 5)
        (record { entries = []; pub_sub = []; expirations = []; shutdown = false }));
  poisoned = false;
}

two_keys-IsWellFormed : IsWellFormed two_keys.state
unfolding new
two_keys-IsWellFormed =
    store-IsWellFormed (codes "b") (codes "2") none _
      (store-IsWellFormed (codes "a") (codes "1") (some 5) _ (new-IsWellFormed Sender))

running : two_keys.state.shutdown ≡ false
unfolding store same
running = refl

purge_expired_keys_exact_example :
    (next : Option ℕ) × ((purge_expired_keys 7 two_keys).0 ≡ some next)
    × InTime next (purge_expired_keys 7 two_keys).1.state.expirations
    × Attained next (purge_expired_keys 7 two_keys).1.state.expirations
    × All (λ d. 7 < d.0) (purge_expired_keys 7 two_keys).1.state.expirations
    × ((k : Bytes)
        → Dict.get k (purge_expired_keys 7 two_keys).1.state.entries
          ≡ survivor 7 (Dict.get k two_keys.state.entries))
    × IsWellFormed (purge_expired_keys 7 two_keys).1.state
purge_expired_keys_exact_example =
    purge_expired_keys_exact 7 two_keys refl running two_keys-IsWellFormed

purged_run : (purge_expired_keys 7 two_keys).0 ≡ some none
unfolding purge_expired_keys store same Schedule.same_deadline
purged_run = refl

set_notifies : (set 100 3 (codes "b") (codes "3") (some 1) two_keys).0 ≡ some true
unfolding set store same
set_notifies = refl

set_later : (set 100 3 (codes "b") (codes "3") (some 9) two_keys).0 ≡ some false
unfolding set store same
set_later = refl

before-InTime : InTime (some 5) two_keys.state.expirations
unfolding store same
before-InTime = (omega arith, tt)

set-poisons_example :
    let s' = (set 100 3 (codes "a") (codes "3") (some 98) two_keys).1 in
    ((set 100 3 (codes "a") (codes "3") (some 98) two_keys).0 ≡ none)
    × (s'.state ≡ two_keys.state)
    × ((k : Bytes) → get k s' ≡ (none, s'))
    × ((m n : ℕ) (k v : Bytes) (e : Option ℕ) → set m n k v e s' ≡ (none, s'))
    × ((k : Bytes) → subscribe counting k s' ≡ (none, s'))
    × ((k v : Bytes) → publish counting k v s' ≡ (none, s'))
    × ((n : ℕ) → purge_expired_keys n s' ≡ (none, s'))
set-poisons_example = set-poisons counting 100 3 98 (codes "a") (codes "3") two_keys (omega arith)
