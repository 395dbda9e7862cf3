-- ===== src/Tests/Subscribing.antt =====
-- A client that subscribes to two channels, at a concrete run.
use tokioconf_2026_workshop.Base.{
  ◌≡◌, refl, sym, false, List, [], ◌∷◌, ◌++◌, append-nil, arith, Bytes, codes, ok, length, map,
  same, ◌<◌,
}
use mathlib.Core.List.{flatten}
use tokioconf_2026_workshop.Client.{returned, idle}
use tokioconf_2026_workshop.Client.Subscriber.{client_subscribe}
use tokioconf_2026_workshop.Client.Subscriber.Subscribed.{
  subscribe_request, client_subscribe-subscribe_each,
}
use tokioconf_2026_workshop.Command.Subscribe.Confirmed.{confirmation}
use tokioconf_2026_workshop.Command.Subscribe.{subscribe_each}
use tokioconf_2026_workshop.Connection.{received, write_frame}
use tokioconf_2026_workshop.Db.{State, subscribe}
use tokioconf_2026_workshop.Frame.{size}
use tokioconf_2026_workshop.Frame.Wire.{encode}
use tokioconf_2026_workshop.Server.Session.Store.{live}
use tokioconf_2026_workshop.Std.Decimal.{decimal}
use tokioconf_2026_workshop.Std.Reference.{reference}
use tokioconf_2026_workshop.Std.StreamMap.{has}
use tokioconf_2026_workshop.Tests.Database.{counting}
use tokioconf_2026_workshop.Tests.Sessions.{listed, no_entries}

abbrev names : List Bytes
names = codes "a" ∷ codes "b" ∷ []

abbrev first : listed.Streams
first = listed.insert (codes "a") tt listed.empty

abbrev both : listed.Streams
both = listed.insert (codes "b") tt first

abbrev out : Bytes
out = encode (confirmation (codes "a") 1) ++ encode (confirmation (codes "b") 2)

abbrev after : State counting.Sender
after = record {
  entries = [];
  pub_sub = (codes "a", 1) ∷ (codes "b", 1) ∷ [];
  expirations = [];
  shutdown = false;
}

subscribed :
    subscribe_each reference counting listed names listed.empty (idle []) (live no_entries)
    ≡ (ok (both, idle out), live after)
unfolding subscribe_each encode decimal same subscribe write_frame size
subscribed = refl

out_bytes : 0 < length out
unfolding encode
out_bytes = omega arith

whole : (b : Bytes) → flatten (b ∷ []) ≡ b
unfolding flatten
whole b = append-nil b

client_subscribe-subscribe_each_example :
    (client_subscribe reference names (idle []) (map received (out ∷ []))
      ≡ returned (ok names) (idle (encode (subscribe_request names))) [])
    × ((j : Bytes) → has j (listed.keys both) ≡ has j names)
client_subscribe-subscribe_each_example =
    client_subscribe-subscribe_each reference counting listed names no_entries both (idle [])
      (idle out) (live after) [] (out ∷ []) (omega arith, (omega arith, tt)) (omega arith)
      (out_bytes, tt) subscribed (sym (whole out))
