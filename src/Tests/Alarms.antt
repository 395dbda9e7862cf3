-- ===== src/Tests/Alarms.antt =====
-- The background task of the database at a concrete run.
use tokioconf_2026_workshop.Base.{◌-◌, ◌≡◌, refl, false, true, some, none, arith, codes}
use tokioconf_2026_workshop.Db.{store, new, set, is_shutdown, purge_expired_keys}
use tokioconf_2026_workshop.Db.Set.{InTime}
use tokioconf_2026_workshop.Db.Task.{
  World, looping, asleep, start, set_done, check_done, purge_done, Reach, here, next, check, purge,
  set_step, notify_one, notified,
}
use tokioconf_2026_workshop.Db.Task.Alarm.{alarmed, Reach-InTime}
use tokioconf_2026_workshop.Tests.Database.{counting}

abbrev begun : World counting.Sender
begun = start

abbrev checked : World counting.Sender
checked = check_done begun (is_shutdown begun.shared)

abbrev idle : World counting.Sender
idle = purge_done checked (purge_expired_keys 0 checked.shared)

-- A value that expires at 8 wakes the task.
abbrev stored : World counting.Sender
stored = set_done idle (set 100 3 (codes "a") (codes "1") (some 5) idle.shared)

abbrev told_task : World counting.Sender
told_task = record stored { permit = true; pending = stored.pending - 1 }

abbrev woken : World counting.Sender
woken = record told_task { task = looping; permit = false }

abbrev rechecked : World counting.Sender
rechecked = check_done woken (is_shutdown woken.shared)

abbrev timed : World counting.Sender
timed = purge_done rechecked (purge_expired_keys 4 rechecked.shared)

timed_run : timed.task ≡ asleep (some 8)
unfolding new purge_done check_done set_done set is_shutdown purge_expired_keys store
timed_run = refl

timed_quiet : alarmed timed ≡ false
unfolding new purge_done check_done set_done set is_shutdown purge_expired_keys store
timed_quiet = refl

timed_reached : Reach counting timed
unfolding new purge_done check_done set_done set is_shutdown purge_expired_keys store
timed_reached =
    next
      (next
        (next
          (next
            (next (next (next here (check refl)) (purge 0 refl))
              (set_step 100 3 (codes "a") (codes "1") (some 5)))
            (notify_one (omega arith)))
          (notified none refl refl))
        (check refl))
      (purge 4 refl)

Reach-InTime_example :
    InTime (some 8) timed.shared.state.expirations × (timed.shared.state.shutdown ≡ false)
Reach-InTime_example = Reach-InTime counting timed (some 8) timed_reached timed_run timed_quiet
