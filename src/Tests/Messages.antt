-- ===== src/Tests/Messages.antt =====
-- A subscriber at a concrete run: two messages, on two channels.
use tokioconf_2026_workshop.Base.{
  ◌≡◌, refl, sym, ap, ◌∙◌, true, [], ◌∷◌, ◌++◌, append-nil, arith, Bytes, codes, ok, length, map,
  same, All, ◌<◌,
}
use mathlib.Core.List.{flatten}
use tokioconf_2026_workshop.Client.{returned, idle}
use tokioconf_2026_workshop.Client.Subscriber.{Received, into_stream}
use tokioconf_2026_workshop.Client.Subscriber.Messages.{
  IsMessage, posts, arrivals, run-messages, into_stream-run,
}
use tokioconf_2026_workshop.Connection.{Connection, received}
use tokioconf_2026_workshop.Frame.Wire.{encode}
use tokioconf_2026_workshop.Server.Session.{Session, subscribed, new_shutdown, run}
use tokioconf_2026_workshop.Server.Session.Store.{live}
use tokioconf_2026_workshop.Std.Reference.{reference}
use tokioconf_2026_workshop.Std.StreamMap.{has}
use tokioconf_2026_workshop.Std.Utf8.{is_utf8}
use tokioconf_2026_workshop.Tests.Database.{counting}
use tokioconf_2026_workshop.Tests.Sessions.{listed, two_channels, no_entries}

abbrev pub on_a : Received
on_a = record { channel = codes "a"; content = codes "hello" }

abbrev pub on_b : Received
on_b = record { channel = codes "b"; content = [] }

on_a-IsMessage : IsMessage on_a
unfolding is_utf8
on_a-IsMessage = record {
  channel_text = refl;
  content_text = refl;
  channel_fits = omega arith;
  content_fits = omega arith;
}

on_b-IsMessage : IsMessage on_b
unfolding is_utf8
on_b-IsMessage = record {
  channel_text = refl;
  content_text = refl;
  channel_fits = omega arith;
  content_fits = omega arith;
}

abbrev task : Session listed.Streams counting.Sender
task = record {
  connection = idle (codes "before");
  incoming = [];
  shared = live no_entries;
  shutdown = new_shutdown;
  mode = subscribed two_channels;
}

there : All (λ (m : Received). has m.channel (listed.keys two_channels) ≡ true) (on_a ∷ on_b ∷ [])
unfolding same
there = (refl, (refl, tt))

some_bytes : 0 < length (posts (on_a ∷ on_b ∷ []))
unfolding encode
some_bytes = omega arith

whole : (b : Bytes) → flatten (b ∷ []) ≡ b
unfolding flatten
whole b = append-nil b

brings :
    (run reference 9 counting listed
      (arrivals reference 9 counting listed (on_a ∷ on_b ∷ []))
      task).connection.stream
    ≡ codes "before" ++ flatten (posts (on_a ∷ on_b ∷ []) ∷ [])
brings =
    ap (λ (c : Connection). c.stream)
      (run-messages reference 9 counting listed (on_a ∷ on_b ∷ []) two_channels task
        (on_a-IsMessage, (on_b-IsMessage, tt)) there refl)
    ∙ ap (λ b. codes "before" ++ b) (sym (whole (posts (on_a ∷ on_b ∷ []))))

into_stream-run_example :
    into_stream reference (λ b. b) 2 (idle []) (map received (posts (on_a ∷ on_b ∷ []) ∷ []))
    ≡ (on_a ∷ on_b ∷ [], returned (ok tt) (idle []) [])
into_stream-run_example =
    into_stream-run reference (λ b. b) 9 counting listed (on_a ∷ on_b ∷ []) two_channels task []
      (posts (on_a ∷ on_b ∷ []) ∷ []) (on_a-IsMessage, (on_b-IsMessage, tt)) there refl
      (some_bytes, tt) brings
