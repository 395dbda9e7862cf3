-- ===== src/Tests/Blocking.antt =====
-- The iterator of the blocking subscriber at a concrete input: a message, a frame that is none,
-- another message, and two errors of the connection.
use tokioconf_2026_workshop.Base.{
  ◌-◌, ◌≡◌, refl, Bool, true, false, List, [], ◌∷◌, ◌++◌, map, Bytes, codes, length, same, Outcome,
  ok, err, panic, out_of_fuel,
}
use tokioconf_2026_workshop.Client.{idle}
use tokioconf_2026_workshop.Client.Blocking.{into_iter, resumed}
use tokioconf_2026_workshop.Client.Blocking.Iterated.{WithoutError, into_iter-into_stream}
use tokioconf_2026_workshop.Client.Subscriber.{into_stream}
use tokioconf_2026_workshop.Client.Subscriber.Messages.{posts}
use tokioconf_2026_workshop.Connection.{Arrival, received, io_failed, parse_frame}
use tokioconf_2026_workshop.Frame.{simple, text, size}
use tokioconf_2026_workshop.Frame.Check.{check}
use tokioconf_2026_workshop.Frame.Cursor.{get_u8, get_decimal, get_line, split_line, peek_u8, skip}
use tokioconf_2026_workshop.Frame.Decode.{decode}
use tokioconf_2026_workshop.Std.Decimal.{decimal}
use tokioconf_2026_workshop.Std.Utf8.{is_utf8}
use tokioconf_2026_workshop.Frame.Wire.{encode}
use tokioconf_2026_workshop.Std.Reference.{reference, atoi}
use tokioconf_2026_workshop.Tests.Messages.{on_a, on_b}

abbrev is_item : {A B : Type 0} → Outcome A B → Bool
is_item (ok _) = true
is_item (err _) = false
is_item panic = false
is_item out_of_fuel = false

abbrev as_it_is : Bytes → Bytes
as_it_is b = b

-- The network fails behind the second message, and the peer closes in the middle of a frame.
abbrev arrivals : List Arrival
arrivals =
    received (posts (on_a ∷ []) ++ (encode (simple (codes "x")) ++ posts (on_b ∷ [])))
    ∷ io_failed (text (codes "reset"))
    ∷ received (codes "*3")
    ∷ received []
    ∷ []

into_iter-into_stream_example :
    (into_iter reference as_it_is 6 (idle []) arrivals
      ≡ resumed reference as_it_is
          (λ ms. 6 - length ms - 1)
          (into_stream reference as_it_is 6 (idle []) arrivals))
    × WithoutError (into_iter reference as_it_is 6 (idle []) arrivals).1
into_iter-into_stream_example = into_iter-into_stream reference as_it_is 6 (idle []) arrivals

-- The item of each round; the sixth round waits.
items_seen :
    map is_item (into_iter reference as_it_is 6 (idle []) arrivals).0
    ≡ true ∷ false ∷ true ∷ false ∷ false ∷ []
unfolding into_iter encode parse_frame check get_u8 get_decimal get_line decimal size split_line
    atoi peek_u8 skip decode same is_utf8
items_seen = refl
