-- ===== src/Tests/Systems.antt =====
-- The whole server at concrete inputs: a client connects and sets a value, and the server stops.
use tokioconf_2026_workshop.Base.{
  ◌+◌, ◌-◌, ◌≡◌, refl, true, false, ◌||◌, some, [], ◌∷◌, arith, codes, length,
}
use mathlib.Core.Option
use tokioconf_2026_workshop.Connection.{received, parse_frame, write_frame}
use tokioconf_2026_workshop.Frame.Check.{check}
use tokioconf_2026_workshop.Frame.Cursor.{get_u8, get_decimal, get_line, split_line, peek_u8, skip}
use tokioconf_2026_workshop.Std.Decimal.{decimal}
use tokioconf_2026_workshop.Std.Reference.{atoi}
use tokioconf_2026_workshop.Frame.{size}
use tokioconf_2026_workshop.Frame.Decode.{decode}
use tokioconf_2026_workshop.Command.RoundTrip.{bulks}
use tokioconf_2026_workshop.Command.{from_frame, parse_set}
use tokioconf_2026_workshop.Std.Utf8.{is_utf8}
use tokioconf_2026_workshop.Base.{same}
use tokioconf_2026_workshop.Std.Platform.{ascii_lower}
use tokioconf_2026_workshop.Db
use tokioconf_2026_workshop.Db.{Entry, shutdown_purge_task}
use tokioconf_2026_workshop.Db.Invariant.{IsWellFormed}
use tokioconf_2026_workshop.Frame.Wire.{encode}
use tokioconf_2026_workshop.Server.Listener
use tokioconf_2026_workshop.Server.Listener.{Phase, in_hand, max_connections}
use tokioconf_2026_workshop.Server.Session.{Event, delivered, read}
use tokioconf_2026_workshop.Server.Session.Pipeline.{wires}
use tokioconf_2026_workshop.Server.System.{
  System, Reach, here, next, start, new_handler, turn, acquire, spawn, work, shutdown_waiting,
  complete,
}
use tokioconf_2026_workshop.Server.System.History.{history, Reach-get, Reach-IsWellFormed}
use tokioconf_2026_workshop.Server.System.Listening.{summary, Reach-refines, Reach-stopped}
use tokioconf_2026_workshop.Server.System.Table.{replay}
use tokioconf_2026_workshop.Std.Reference.{reference}
use tokioconf_2026_workshop.Tests.Database.{counting}
use tokioconf_2026_workshop.Tests.Sessions.{listed, first_set}

abbrev Small : Type 0
Small = System reference 100 counting listed

abbrev Reached : Small → Type 0
Reached = Reach reference 100 counting listed

abbrev begun : Small
begun = start reference 100 counting listed

abbrev connected : Small
connected = record begun {
  phase = Phase.waiting;
  permits = begun.permits - 1;
  sessions = new_handler reference 100 counting listed begun.shared ∷ begun.sessions;
}

connected_reached : Reached connected
unfolding start
connected_reached = next (next here (acquire refl (omega arith))) (spawn refl)

-- A step of the only connection.
abbrev worked : Event counting.Sender → Small → Small
worked e s = elim s.sessions [
  | [] ↦ s
  | x ∷ after ↦ record s {
    sessions = turn reference 100 counting listed e s.shared x ∷ after;
    shared = (turn reference 100 counting listed e s.shared x).shared;
  }
]

abbrev asked : Small
asked = worked (delivered (received (wires (first_set ∷ [])))) connected

abbrev answered : Small
answered = worked (read 3) asked

answered_reached : Reached answered
unfolding start
answered_reached =
    next
      (next connected_reached
        (work [] (new_handler reference 100 counting listed begun.shared) [] _ refl tt))
      (work [] _ [] (read 3) refl tt)

-- The client's value is there.
answered_lem :
    (answered.shared.poisoned ≡ false)
    × ((Db.get (codes "k") answered.shared).0 ≡ some (some (codes "v")))
unfolding start turn new_handler encode Db.get parse_frame check get_u8 get_decimal get_line decimal
    size bulks split_line atoi peek_u8 skip decode from_frame is_utf8 same ascii_lower parse_set
    Db.set write_frame
answered_lem = (refl, refl)

Reach-get_example :
    (Db.get (codes "k") answered.shared).0
    ≡ some (
        Option.map
          (λ (e : Entry). e.value)
          (replay (history reference 100 counting listed answered_reached) (codes "k")))
Reach-get_example =
    Reach-get reference 100 counting listed answered (codes "k") answered_reached answered_lem.0

Reach-IsWellFormed_example : IsWellFormed answered.shared.state
Reach-IsWellFormed_example =
    Reach-IsWellFormed reference 100 counting listed answered answered_reached

Reach-refines_example :
    Listener.Reach (summary reference 100 counting listed answered)
    × (answered.permits + length answered.sessions + in_hand answered.phase ≡ max_connections)
Reach-refines_example = Reach-refines reference 100 counting listed answered answered_reached

-- The server is shut down while nobody is connected.
abbrev stopped : Small
stopped = record begun { phase = Phase.returned; shared = (shutdown_purge_task begun.shared).1 }

stopped_reached : Reached stopped
unfolding start
stopped_reached = next (next here (shutdown_waiting refl)) (complete refl refl)

Reach-stopped_example :
    (stopped.sessions ≡ [])
    × (stopped.permits ≡ max_connections)
    × ((stopped.shared.poisoned || stopped.shared.state.shutdown) ≡ true)
Reach-stopped_example = Reach-stopped reference 100 counting listed stopped stopped_reached refl
