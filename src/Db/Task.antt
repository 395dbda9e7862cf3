-- ===== src/Db/Task.antt =====
-- The background task of mini-redis/src/db.rs, `purge_expired_tasks`, and what the connections do to
-- the database meanwhile.
pub mod Operations
pub mod Alarm
use tokioconf_2026_workshop.Base.{
  ℕ, zero, suc, ◌+◌, ◌-◌, ◌≤◌, ◌<◌, ◌≡◌, refl, sym, ap, ◌∙◌, inl, inr, Bool, true, false, ◌||◌,
  Option, none, some, List, [], ◌∷◌, arith, Bytes, ltb, same, if◌then◌else◌, Bool-cases,
}
use tokioconf_2026_workshop.Collections.Dict
use tokioconf_2026_workshop.Db
use tokioconf_2026_workshop.Db.{
  Broadcast, State, Shared, new, get, set, subscribe, publish, is_shutdown, shutdown_purge_task,
  purge_expired_keys, attach, deliver,
}
use tokioconf_2026_workshop.Db.Invariant.{IsWellFormed, new-IsWellFormed}
use tokioconf_2026_workshop.Db.Purge.{purge_expired_keys_exact}
use tokioconf_2026_workshop.Db.Set.{InTime, set-InTime, set-IsWellFormed}

-- Where the task is: at the head of its loop, before the purge, in the `select!` or the wait behind
-- it, with the instant of its timer if it has one, returned, or ended by a panic.
pub data Task : Type 0 where
  looping purging : Task
  asleep : Option ℕ → Task
  ended failed : Task

-- `permit` is what `Notify` keeps for the task; `pending` counts the operations that have released
-- the lock and are about to call `notify_one`.
pub record World (S : Type 0) : Type 0 where
  pub shared : Shared S
  pub task : Task
  pub permit : Bool
  pub pending : ℕ

abbrev pub start : {S : Type 0} → World S
start = record { shared = new; task = looping; permit = false; pending = 0 }

-- `if notify { self.shared.background_task.notify_one(); }`
unfoldable pub asked : Option Bool → ℕ
asked none = 0
asked (some notify) = if notify then 1 else 0

-- A panic under the lock sends no notification.
unfoldable pub told : Option (Unit {0}) → ℕ
told none = 0
told (some _) = 1

-- `while !shared.is_shutdown()`
unfoldable pub past_head : Option Bool → Task
past_head none = failed
past_head (some shutdown) = if shutdown then ended else purging

unfoldable pub past_purge : Option (Option ℕ) → Task
past_purge none = failed
past_purge (some next) = asleep next

module _ {S : Type 0} where
  unfoldable pub set_done : World S → Option Bool × Shared S → World S
  unfolding asked
  set_done w (notify, s) = record w { shared = s; pending = w.pending + asked notify }

  unfoldable pub drop_done : World S → Option (Unit {0}) × Shared S → World S
  unfolding told
  drop_done w (r, s) = record w { shared = s; pending = w.pending + told r }

  unfoldable pub check_done : World S → Option Bool × Shared S → World S
  unfolding past_head
  check_done w (r, s) = record w { shared = s; task = past_head r }

  unfoldable pub purge_done : World S → Option (Option ℕ) × Shared S → World S
  unfolding past_purge
  purge_done w (r, s) = record w { shared = s; task = past_purge r }

module _ (bc : Broadcast) where
  pub data Step (w : World bc.Sender) : World bc.Sender → Type 0 where
    get_step : (key : Bytes) → Step w (record w { shared = (get key w.shared).1 })
    set_step :
        (max now : ℕ) (key value : Bytes) (expire : Option ℕ)
        → Step w (set_done w (set max now key value expire w.shared))
    subscribe_step : (key : Bytes) → Step w (record w { shared = (subscribe bc key w.shared).1 })
    publish_step :
        (key value : Bytes) → Step w (record w { shared = (publish bc key value w.shared).1 })
    -- The last `Db` is dropped.
    drop_step : Step w (drop_done w (shutdown_purge_task w.shared))
    notify_one : 0 < w.pending → Step w (record w { permit = true; pending = w.pending - 1 })
    check : w.task ≡ looping → Step w (check_done w (is_shutdown w.shared))
    purge : (now : ℕ) → w.task ≡ purging → Step w (purge_done w (purge_expired_keys now w.shared))
    timer :
        (when now : ℕ)
        → w.task ≡ asleep (some when)
        → when ≤ now
        → Step w (record w { task = looping })
    notified :
        (o : Option ℕ)
        → w.task ≡ asleep o
        → w.permit ≡ true
        → Step w (record w { task = looping; permit = false })

  pub data Reach : World bc.Sender → Type 0 where
    here : Reach start
    next : {v w : World bc.Sender} → Reach v → Step v w → Reach w
