-- ===== src/Server/Session/Turn.antt =====
-- What one step of a connection does to the database: what the command that came says, and no more.
use tokioconf_2026_workshop.Base.{
  ℕ, ◌≡◌, refl, ◌∙◌, inl, inr, Bool-cases, Option, none, some, Bytes, ok, err, panic, out_of_fuel,
}
use tokioconf_2026_workshop.Command.{Command, from_frame}
use tokioconf_2026_workshop.Command.Subscribe.{Effect, on_frame}
use tokioconf_2026_workshop.Connection.{Connection, Progress, done, waiting, read_frame}
use tokioconf_2026_workshop.Db.{Broadcast, Shared}
use tokioconf_2026_workshop.Db.Task.Operations.{Harmless, unchanged-Harmless}
use tokioconf_2026_workshop.Server.Session.{
  Session, Mode, serving, subscribed, ended, Event, delivered, read, message, shut_down, others,
  Place, serve, settle, serve_read, stay, subscribed_read, on_read, on_message, on_shut_down, step,
}
use tokioconf_2026_workshop.Std.Platform.{Platform}
use tokioconf_2026_workshop.Std.StreamMap.{StreamMap, has}
use tokioconf_2026_workshop.Server.Session.Effects.{
  parsed, acted, serve-Harmless, on_frame-Harmless,
}

-- A step of the connection itself.
abbrev pub Own : {Sender : Type 0} → Event Sender → Type 0
Own (delivered a) = Unit {0}
Own (read now) = Unit {0}
Own (message channel msg) = Unit {0}
Own shut_down = Unit {0}
Own (others s) = ⊥

-- The time at which a command is executed.
abbrev pub instant : {Sender : Type 0} → Event Sender → ℕ
instant (read now) = now
instant (delivered a) = 0
instant (message channel msg) = 0
instant shut_down = 0
instant (others s) = 0

module _ (pf : Platform) (max : ℕ) (bc : Broadcast) (sm : StreamMap bc.Receiver) where
  open sm use {Streams, empty, keys}

  abbrev found : Progress → Option Command
  found (done (ok (some f, c)) later) = parsed (from_frame pf f)
  found (done (ok (none, c)) later) = none
  found (done (err m) later) = none
  found (done panic later) = none
  found (done out_of_fuel later) = none
  found (waiting c) = none

  abbrev progress : Session Streams bc.Sender → Progress
  progress x = read_frame pf x.connection x.incoming

  abbrev obeyed : Mode Streams → Progress → Option Command
  obeyed serving p = found p
  obeyed (subscribed subs) p = none
  obeyed (ended r) p = none

  -- The command that is executed in the handler's loop by this step, if there is one.
  unfoldable pub commanded : Event bc.Sender → Session Streams bc.Sender → Option Command
  commanded (read now) x = obeyed x.mode (progress x)
  commanded (delivered a) x = none
  commanded (message channel msg) x = none
  commanded shut_down x = none
  commanded (others s) x = none

  settle_shared :
      (r : Effect (Shared bc.Sender) (Place pf max bc sm)) (x : Session Streams bc.Sender)
      → (settle pf max bc sm r x).shared ≡ r.1
  unfolding settle
  settle_shared (ok (o, dst), s) x = refl
  settle_shared (err m, s) x = refl
  settle_shared (panic, s) x = refl
  settle_shared (out_of_fuel, s) x = refl

  stay_shared :
      (r : Effect (Shared bc.Sender) (Streams × Connection)) → (stay pf max bc sm r).1 ≡ r.1
  stay_shared (ok (subs, dst), s) = refl
  stay_shared (err m, s) = refl
  stay_shared (panic, s) = refl
  stay_shared (out_of_fuel, s) = refl

  serve_read-Harmless :
      (now : ℕ) (p : Progress) (x : Session Streams bc.Sender)
      → Harmless (acted max now (found p) x.shared) (serve_read pf max bc sm now p x).shared
  unfolding serve_read
  serve_read-Harmless now (done (ok (some f, c)) later) x =
      rw (settle_shared (serve pf max bc sm now f c x.shared))
        (serve-Harmless pf max bc sm now f c x.shared)
  serve_read-Harmless now (done (ok (none, c)) later) x = unchanged-Harmless x.shared
  serve_read-Harmless now (done (err m) later) x = unchanged-Harmless x.shared
  serve_read-Harmless now (done panic later) x = unchanged-Harmless x.shared
  serve_read-Harmless now (done out_of_fuel later) x = unchanged-Harmless x.shared
  serve_read-Harmless now (waiting c) x = unchanged-Harmless x.shared

  subscribed_read-Harmless :
      (subs : Streams) (p : Progress) (x : Session Streams bc.Sender)
      → Harmless x.shared (subscribed_read pf max bc sm subs p x).shared
  unfolding subscribed_read
  subscribed_read-Harmless subs (done (ok (some f, c)) later) x =
      rw
        (
          settle_shared (stay pf max bc sm (on_frame pf bc sm f subs c x.shared)),
          stay_shared (on_frame pf bc sm f subs c x.shared),
        )
        (on_frame-Harmless pf max bc sm f subs c x.shared)
  subscribed_read-Harmless subs (done (ok (none, c)) later) x = unchanged-Harmless x.shared
  subscribed_read-Harmless subs (done (err m) later) x = unchanged-Harmless x.shared
  subscribed_read-Harmless subs (done panic later) x = unchanged-Harmless x.shared
  subscribed_read-Harmless subs (done out_of_fuel later) x = unchanged-Harmless x.shared
  subscribed_read-Harmless subs (waiting c) x = unchanged-Harmless x.shared

  on_read-Harmless :
      (now : ℕ) (m : Mode Streams) (x : Session Streams bc.Sender)
      → Harmless
          (acted max now (obeyed m (progress x)) x.shared)
          (on_read pf max bc sm now m x).shared
  unfolding on_read
  on_read-Harmless now serving x = serve_read-Harmless now (progress x) x
  on_read-Harmless now (subscribed subs) x = subscribed_read-Harmless subs (progress x) x
  on_read-Harmless now (ended r) x = unchanged-Harmless x.shared

  on_message_shared :
      (channel msg : Bytes) (m : Mode Streams) (x : Session Streams bc.Sender)
      → (on_message pf max bc sm channel msg m x).shared ≡ x.shared
  unfolding on_message
  on_message_shared channel msg serving x = refl
  on_message_shared channel msg (ended r) x = refl
  on_message_shared channel msg (subscribed subs) x = elim (Bool-cases (has channel (keys subs))) [
    | inl there ↦ rw there (settle_shared _ x ∙ stay_shared _)
    | inr absent ↦ rw absent
  ]

  on_shut_down_shared :
      (m : Mode Streams) (x : Session Streams bc.Sender)
      → (on_shut_down pf max bc sm m x).shared ≡ x.shared
  unfolding on_shut_down
  on_shut_down_shared serving x = refl
  on_shut_down_shared (subscribed subs) x = refl
  on_shut_down_shared (ended r) x = refl

  -- Whatever comes, the values, the deadlines, the flag and the lock are as the command that is
  -- executed leaves them.
  pub step-Harmless :
      (e : Event bc.Sender) (x : Session Streams bc.Sender)
      → Own e
      → Harmless (acted max (instant e) (commanded e x) x.shared) (step pf max bc sm e x).shared
  unfolding step commanded
  step-Harmless (delivered a) x own = unchanged-Harmless x.shared
  step-Harmless (read now) x own = on_read-Harmless now x.mode x
  step-Harmless (message channel msg) x own =
      rw (on_message_shared channel msg x.mode x) (unchanged-Harmless x.shared)
  step-Harmless shut_down x own = rw (on_shut_down_shared x.mode x) (unchanged-Harmless x.shared)
  step-Harmless (others s) x own = absurd own
