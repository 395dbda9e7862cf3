-- ===== src/Db/Task/Alarm.antt =====
-- The background task sleeps past no deadline, and misses no shutdown.
use tokioconf_2026_workshop.Base.{
  ℕ, ◌+◌, ◌-◌, ◌<◌, ◌≡◌, refl, sym, ap, ◌∙◌, inl, inr, Bool, true, false, ◌||◌, Option, arith,
  Bytes, ltb, Bool-cases,
}
use tokioconf_2026_workshop.Db.{
  Broadcast, Shared, new, set, is_shutdown, shutdown_purge_task, purge_expired_keys,
}
use tokioconf_2026_workshop.Db.Invariant.{IsWellFormed, new-IsWellFormed}
use tokioconf_2026_workshop.Db.Purge.{purge_expired_keys_exact}
use tokioconf_2026_workshop.Db.Set.{InTime, set-IsWellFormed}
use tokioconf_2026_workshop.Db.Task.{
  Task, looping, purging, asleep, ended, failed, World, start, asked, told, past_head, past_purge,
  set_done, drop_done, check_done, purge_done, Step, get_step, set_step, subscribe_step,
  publish_step, drop_step, notify_one, check, purge, timer, notified, Reach, here, next,
}
use tokioconf_2026_workshop.Db.Task.Operations.{
  Harmless, Harmless-IsWellFormed, get-Harmless, set-shutdown, set-asked, subscribe-Harmless,
  publish-Harmless,
}

-- A notification is stored, or will be.
abbrev pub alarmed : {S : Type 0} → World S → Bool
alarmed w = w.permit || ltb 0 w.pending

abbrev watches : Task → Bool
watches looping = false
watches purging = true
watches (asleep o) = true
watches ended = false
watches failed = false

true≢false : true ≡ false → ⊥
true≢false e = cc

same_instant : (m o : Option ℕ) → asleep m ≡ asleep o → m ≡ o
same_instant m o e = cc

module _ {S : Type 0} where
  record Inv (w : World S) : Type 0 where
    well_formed : IsWellFormed w.shared.state
    in_time :
        (o : Option ℕ) → w.task ≡ asleep o → alarmed w ≡ false → InTime o w.shared.state.expirations
    awake : (o : Option ℕ) → w.task ≡ asleep o → alarmed w ≡ false → w.shared.state.shutdown ≡ false
    told_early : w.task ≡ purging → alarmed w ≡ false → w.shared.state.shutdown ≡ false

  -- A task that is neither asleep nor about to purge misses nothing.
  elsewhere-Inv : (w : World S) → watches w.task ≡ false → IsWellFormed w.shared.state → Inv w
  elsewhere-Inv w h well_formed = record {
    well_formed = well_formed;
    in_time = λ o e q. absurd (true≢false (sym (ap watches e) ∙ h));
    awake = λ o e q. absurd (true≢false (sym (ap watches e) ∙ h));
    told_early = λ e q. absurd (true≢false (sym (ap watches e) ∙ h));
  }

  -- Nor does a task with a notification ahead.
  loud-Inv : (w : World S) → alarmed w ≡ true → IsWellFormed w.shared.state → Inv w
  loud-Inv w h well_formed = record {
    well_formed = well_formed;
    in_time = λ o e q. absurd (true≢false (sym h ∙ q));
    awake = λ o e q. absurd (true≢false (sym h ∙ q));
    told_early = λ e q. absurd (true≢false (sym h ∙ q));
  }

  Harmless-Inv :
      (w : World S) (t : Shared S) → Inv w → Harmless w.shared t → Inv (record w { shared = t })
  Harmless-Inv w t v h = record {
    well_formed = Harmless-IsWellFormed w.shared t h v.well_formed;
    in_time = λ o e q. rw h.same_deadlines (v.in_time o e q);
    awake = λ o e q. h.same_flag ∙ v.awake o e q;
    told_early = λ e q. h.same_flag ∙ v.told_early e q;
  }

  notify-Inv :
      (w : World S)
      → Inv w
      → 0 < w.pending
      → Inv (record w { permit = true; pending = w.pending - 1 })
  notify-Inv w v h = loud-Inv _ refl v.well_formed

  looping-Inv :
      (w : World S) (permit : Bool) → Inv w → Inv (record w { task = looping; permit = permit })
  looping-Inv w permit v = elsewhere-Inv _ refl v.well_formed

  set-Inv :
      (max now : ℕ) (key value : Bytes) (expire : Option ℕ) (w : World S)
      → Inv w
      → Inv (set_done w (set max now key value expire w.shared))
  unfolding set_done
  set-Inv max now key value expire w v = record {
    well_formed = set-IsWellFormed max now key value expire w.shared v.well_formed;
    in_time = λ o e q.
        set-asked max now key value expire w.shared o r.0 refl (ground arith)
          (v.in_time o e (quiet w (asked r.0) q));
    awake = λ o e q.
        set-shutdown max now key value expire w.shared ∙ v.awake o e (quiet w (asked r.0) q);
    told_early = λ e q.
        set-shutdown max now key value expire w.shared ∙ v.told_early e (quiet w (asked r.0) q);
  }
    where
      r : Option Bool × Shared S
      r = set max now key value expire w.shared

      quiet :
          (w : World S) (n : ℕ) → (w.permit || ltb 0 (w.pending + n)) ≡ false → alarmed w ≡ false
      quiet w n q = ground arith

  drop-Inv : (w : World S) → Inv w → Inv (drop_done w (shutdown_purge_task w.shared))
  unfolding drop_done shutdown_purge_task told
  drop-Inv w v = elim (Bool-cases w.shared.poisoned) [
    | inl p ↦ rw p (record {
      well_formed = v.well_formed;
      in_time = λ o e q. v.in_time o e (ground arith);
      awake = λ o e q. v.awake o e (ground arith);
      told_early = λ e q. v.told_early e (ground arith);
    })
    | inr p ↦ rw p (loud-Inv _ (ground arith) v.well_formed)
  ]

  check-Inv : (w : World S) → Inv w → Inv (check_done w (is_shutdown w.shared))
  unfolding check_done is_shutdown past_head
  check-Inv w v = elim (Bool-cases w.shared.poisoned) [
    | inl p ↦ rw p (elsewhere-Inv _ refl v.well_formed)
    | inr p ↦ elim (Bool-cases w.shared.state.shutdown) [
      | inl f ↦ rw (p, f) (elsewhere-Inv _ refl v.well_formed)
      | inr f ↦
          rw (p, f)
            (record {
              well_formed = v.well_formed;
              in_time = λ o e q. cc;
              awake = λ o e q. cc;
              told_early = λ e q. refl;
            })
    ]
  ]

  purge-shutdown :
      (now : ℕ) (s : Shared S) → (purge_expired_keys now s).1.state.shutdown ≡ s.state.shutdown
  unfolding purge_expired_keys
  purge-shutdown now s = ground arith

  module _ (now : ℕ) (w : World S) (v : Inv w) (e : w.task ≡ purging) where
    Purged : Type 0
    Purged = Inv (purge_done w (purge_expired_keys now w.shared))

    stuck : w.shared.poisoned ≡ true → Purged
    unfolding Purged purge_done purge_expired_keys past_purge
    stuck p = rw p (elsewhere-Inv _ refl v.well_formed)

    late : w.shared.poisoned ≡ false → w.shared.state.shutdown ≡ true → Purged
    unfolding Purged purge_done purge_expired_keys past_purge
    late p f =
        let loud : alarmed w ≡ true = ground (arith, v.told_early e) in
        rw (p, f) (loud-Inv _ loud v.well_formed)

    in_order : w.shared.poisoned ≡ false → w.shared.state.shutdown ≡ false → Purged
    unfolding Purged purge_done past_purge
    in_order p f =
        let (wake, returns, early, _, ahead, kept, well_formed) =
          purge_expired_keys_exact now w.shared p f v.well_formed in
        record {
          well_formed = well_formed;
          in_time = λ o e' q. rw (← same_instant wake o (sym (ap past_purge returns) ∙ e')) early;
          awake = λ o e q. purge-shutdown now w.shared ∙ f;
          told_early = λ e q. purge-shutdown now w.shared ∙ f;
        }

    -- A purge that ran under the flag set finds a notification behind it.
    purge-Inv : Purged
    purge-Inv = elim (Bool-cases w.shared.poisoned) [
      | inl p ↦ stuck p
      | inr p ↦ elim (Bool-cases w.shared.state.shutdown) [
        | inl f ↦ late p f
        | inr f ↦ in_order p f
      ]
    ]

module _ (bc : Broadcast) where
  open bc use {Sender}

  Step-Inv : {v w : World Sender} → Inv v → Step bc v w → Inv w
  unfolding Purged
  Step-Inv {v} i (get_step key) = Harmless-Inv v _ i (get-Harmless key v.shared)
  Step-Inv {v} i (set_step max now key value expire) = set-Inv max now key value expire v i
  Step-Inv {v} i (subscribe_step key) = Harmless-Inv v _ i (subscribe-Harmless bc key v.shared)
  Step-Inv {v} i (publish_step key value) =
      Harmless-Inv v _ i (publish-Harmless bc key value v.shared)
  Step-Inv {v} i drop_step = drop-Inv v i
  Step-Inv {v} i (notify_one h) = notify-Inv v i h
  Step-Inv {v} i (check e) = check-Inv v i
  Step-Inv {v} i (purge now e) = purge-Inv now v i e
  Step-Inv {v} i (timer when now e h) = looping-Inv v v.permit i
  Step-Inv {v} i (notified o e h) = looping-Inv v false i

  start-Inv : Inv (start {S = Sender})
  unfolding new
  start-Inv = elsewhere-Inv _ refl (new-IsWellFormed Sender)

  Reach-Inv : {w : World Sender} → Reach bc w → Inv w
  Reach-Inv here = start-Inv
  Reach-Inv (next r st) = Step-Inv (Reach-Inv r) st

  -- However the operations of the connections and the steps of the background task come after one
  -- another from a new database: if the task is asleep, no notification is stored for it and none is
  -- about to be sent, then its timer is not behind any deadline (if it has no timer, there is no
  -- deadline), and the database is not shutting down.
  pub Reach-InTime :
      (w : World Sender) (o : Option ℕ)
      → Reach bc w
      → w.task ≡ asleep o
      → alarmed w ≡ false
      → InTime o w.shared.state.expirations × (w.shared.state.shutdown ≡ false)
  Reach-InTime w o r e q = let v = Reach-Inv r in (v.in_time o e q, v.awake o e q)
