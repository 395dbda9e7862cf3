-- ===== src/Server/Session/Effects.antt =====
-- What the execution of a command does to the database.
use tokioconf_2026_workshop.Base.{
  ℕ, ◌≡◌, refl, Option, none, some, List, [], ◌∷◌, Bytes, Outcome, ok, err, panic, out_of_fuel,
}
use tokioconf_2026_workshop.Command.{
  Command, subscribe, unsubscribe, get, set, publish, ping, unknown, from_frame,
}
use tokioconf_2026_workshop.Command.Apply.{respond, apply_get, apply_set, apply_publish}
use tokioconf_2026_workshop.Command.Subscribe.{
  Effect, ◌>>=◌, track, subscribe_to_channel, subscribe_each, handle_command, on_frame,
}
use tokioconf_2026_workshop.Connection.{Connection}
use tokioconf_2026_workshop.Db
use tokioconf_2026_workshop.Db.{Broadcast, Shared}
use tokioconf_2026_workshop.Db.Task.Operations.{
  Harmless, unchanged-Harmless, Harmless-trans, get-Harmless, subscribe-Harmless, publish-Harmless,
}
use tokioconf_2026_workshop.Frame.{Frame, Message}
use tokioconf_2026_workshop.Server.Session.{apply, serve}
use tokioconf_2026_workshop.Std.Platform.{Platform}
use tokioconf_2026_workshop.Std.StreamMap.{StreamMap}

-- The command that a frame of a connection in the handler's loop is.
abbrev pub parsed : Outcome Message Command → Option Command
parsed (ok c) = some c
parsed (err m) = none
parsed panic = none
parsed out_of_fuel = none

respond_shared :
    {S A : Type 0} (response : A → Frame) (dst : Connection) (r : Option A × Shared S)
    → (respond response dst r).1 ≡ r.1
unfolding respond
respond_shared response dst (none, s) = refl
respond_shared response dst (some a, s) = refl

-- A command by itself changes what a client reads only if it is a `SET`.
abbrev pub acted : {S : Type 0} → ℕ → ℕ → Option Command → Shared S → Shared S
acted max now (some (set key value expire)) s = (Db.set max now key value expire s).1
acted max now (some (get key)) s = s
acted max now (some (publish channel payload)) s = s
acted max now (some (subscribe names)) s = s
acted max now (some (unsubscribe names)) s = s
acted max now (some (ping msg)) s = s
acted max now (some (unknown name)) s = s
acted max now none s = s

module _ (pf : Platform) (max : ℕ) (bc : Broadcast) (sm : StreamMap bc.Receiver) where
  open sm use {Streams, empty, keys}

  track_shared :
      (channel : Bytes) (subs : Streams) (dst : Connection)
      (r : Option bc.Receiver × Shared bc.Sender)
      → (track pf bc sm channel subs dst r).1 ≡ r.1
  unfolding track
  track_shared channel subs dst (none, s) = refl
  track_shared channel subs dst (some rx, s) = refl

  >>=-Harmless :
      {A B : Type 0} (s : Shared bc.Sender) (m : Effect (Shared bc.Sender) A)
      (f : A → Shared bc.Sender → Effect (Shared bc.Sender) B)
      → Harmless s m.1
      → ((a : A) (t : Shared bc.Sender) → Harmless t (f a t).1)
      → Harmless s (m >>= f).1
  >>=-Harmless s (ok a, t) f h k = Harmless-trans s t (f a t).1 h (k a t)
  >>=-Harmless s (err m, t) f h k = h
  >>=-Harmless s (panic, t) f h k = h
  >>=-Harmless s (out_of_fuel, t) f h k = h

  subscribe_each-Harmless :
      (channels : List Bytes) (subs : Streams) (dst : Connection) (s : Shared bc.Sender)
      → Harmless s (subscribe_each pf bc sm channels subs dst s).1
  unfolding subscribe_each subscribe_to_channel
  subscribe_each-Harmless [] subs dst s = unchanged-Harmless s
  subscribe_each-Harmless (channel ∷ channels) subs dst s =
      >>=-Harmless s (track pf bc sm channel subs dst (Db.subscribe bc channel s)) _
        (rw (track_shared channel subs dst (Db.subscribe bc channel s))
          (subscribe-Harmless bc channel s))
        (λ (subs', dst') t. subscribe_each-Harmless channels subs' dst' t)

  apply-Harmless :
      (now : ℕ) (c : Command) (dst : Connection) (s : Shared bc.Sender)
      → Harmless (acted max now (some c) s) (apply pf max bc sm now c dst s).1
  unfolding apply apply_get apply_set apply_publish
  apply-Harmless now (get key) dst s = rw (respond_shared _ dst (Db.get key s)) (get-Harmless key s)
  apply-Harmless now (publish channel payload) dst s =
      rw (respond_shared _ dst (Db.publish bc channel payload s))
        (publish-Harmless bc channel payload s)
  apply-Harmless now (set key value expire) dst s =
      rw (respond_shared _ dst (Db.set max now key value expire s)) (unchanged-Harmless _)
  apply-Harmless now (subscribe names) dst s =
      >>=-Harmless s (subscribe_each pf bc sm names empty dst s) _
        (subscribe_each-Harmless names empty dst s) (λ (subs, dst') t. unchanged-Harmless t)
  apply-Harmless now (unsubscribe names) dst s = unchanged-Harmless s
  apply-Harmless now (ping msg) dst s = unchanged-Harmless s
  apply-Harmless now (unknown name) dst s = unchanged-Harmless s

  pub serve-Harmless :
      (now : ℕ) (f : Frame) (dst : Connection) (s : Shared bc.Sender)
      → Harmless (acted max now (parsed (from_frame pf f)) s) (serve pf max bc sm now f dst s).1
  unfolding serve
  serve-Harmless now f dst s = by_command (from_frame pf f)
    where
      by_command :
          (r : Outcome Message Command)
          → Harmless
              (acted max now (parsed r) s)
              ((r, s) >>= λ cmd s'. apply pf max bc sm now cmd dst s').1
      by_command (ok c) = apply-Harmless now c dst s
      by_command (err m) = unchanged-Harmless s
      by_command panic = unchanged-Harmless s
      by_command out_of_fuel = unchanged-Harmless s

  pub on_frame-Harmless :
      (f : Frame) (subs : Streams) (dst : Connection) (s : Shared bc.Sender)
      → Harmless s (on_frame pf bc sm f subs dst s).1
  unfolding on_frame
  on_frame-Harmless f subs dst s =
      >>=-Harmless s (handle_command pf bc sm f subs dst, s) _ (unchanged-Harmless s)
        (λ (channels, (subs', dst')) t. subscribe_each-Harmless channels subs' dst' t)
