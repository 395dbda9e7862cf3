-- ===== src/Tests/Serving.antt =====
-- The server's listener at concrete inputs.
use tokioconf_2026_workshop.Base.{ℕ, ◌+◌, ◌-◌, ◌≡◌, refl, [], ◌∷◌, ◌++◌, map, arith, codes, List}
use tokioconf_2026_workshop.Frame.{Message, text}
use tokioconf_2026_workshop.Server.Accept.{accepted, refused, accept, failed, accept-gives_up}
use tokioconf_2026_workshop.Server.Listener.{
  Server, Phase, Reach, here, next, acquire, spawn, finish, shutdown_waiting, complete,
}

abbrev busy : Message
busy = text (codes "busy")

abbrev seven : List Message
seven = busy ∷ busy ∷ busy ∷ busy ∷ busy ∷ busy ∷ busy ∷ []

accept-gives_up_example :
    accept {Socket = ℕ} (map refused seven ++ refused busy ∷ accepted 7 ∷ [])
    ≡ failed busy (1 ∷ 2 ∷ 4 ∷ 8 ∷ 16 ∷ 32 ∷ 64 ∷ [])
accept-gives_up_example = accept-gives_up seven busy (accepted 7 ∷ []) refl

-- One connection is being served.
abbrev serving : Server
serving = record { phase = Phase.waiting; permits = 250 - 1; handlers = 0 + 1 }

serving_reached : Reach serving
serving_reached = next (next here (acquire refl (omega arith))) (spawn refl)

-- The connection ended, and the server was shut down.
abbrev stopped : Server
stopped = record { phase = Phase.returned; permits = 250 - 1 + 1; handlers = 0 + 1 - 1 }

stopped_reached : Reach stopped
stopped_reached =
    next (next (next serving_reached (finish (omega arith))) (shutdown_waiting refl))
      (complete refl refl)
