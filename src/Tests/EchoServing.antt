-- ===== src/Tests/EchoServing.antt =====
-- The echo server at a concrete run: a client connects, and sends two bytes that come back.
use tokioconf_2026_workshop.Base.{
  suc, ◌≡◌, ◌<◌, refl, true, Option, none, some, List, [], ◌∷◌, arith, codes, length,
}
use tokioconf_2026_workshop.Workshop.Echo.{moved, IsEcho}
use tokioconf_2026_workshop.Workshop.EchoServer.{
  System, Stream, stream, new_stream, Answers, accepted, start, poll_task, poll, Reach, here, next,
}
use tokioconf_2026_workshop.Workshop.EchoServer.Counted.{count, over_at}
use tokioconf_2026_workshop.Workshop.EchoServer.Echoes.{Reach-IsEcho}
use tokioconf_2026_workshop.Workshop.EchoServer.Woken.{IsCalm, Reach-polls, Reach-wakes}
use tokioconf_2026_workshop.Workshop.Reactor

-- One client, that has sent two bytes.
abbrev comes : Answers
comes = record { binds = true; accepts = accepted (codes "hi") ∷ []; calls = [] }

-- The two bytes are read and written, and then there is nothing to read.
abbrev answers : Answers
answers = record { binds = true; accepts = []; calls = moved 2 ∷ moved 2 ∷ [] }

abbrev after : Option System → System
after none = start
after (some s) = s

abbrev connected : System
connected = after (poll_task comes 0 (record start { queue = [] }))

connected_reached : Reach connected
unfolding start poll_task
connected_reached = next here (poll 0 [] comes connected refl refl)

comes_next : connected.queue ≡ 1 ∷ []
unfolding start poll_task
comes_next = refl

calm : IsCalm answers
calm = record { bound = refl; all_accepted = tt }

Reach-polls_example :
    (t : System) × (poll_task answers 1 (record connected { queue = [] }) ≡ some t)
Reach-polls_example = Reach-polls connected 1 [] answers connected_reached comes_next calm

abbrev echoed : System
echoed = after (poll_task answers 1 (record connected { queue = [] }))

echoed_reached : Reach echoed
unfolding start poll_task
echoed_reached = next connected_reached (poll 1 [] answers echoed refl refl)

echoed_lem :
    (echoed.queue ≡ []) × (1 < suc (length echoed.streams)) × (over_at 1 echoed.streams ≡ 0)
unfolding start poll_task
echoed_lem = (refl, omega arith, refl)

Reach-wakes_example : count 1 (Reactor.turn (1 ∷ []) echoed.reactor []).1 ≡ 1
Reach-wakes_example =
    Reach-wakes echoed 1 (1 ∷ []) echoed_reached echoed_lem.0 echoed_lem.1 echoed_lem.2
      (λ e. omega (arith, e)) refl

abbrev first : List Stream → Stream
first [] = new_stream 0 [] Reactor.new
first (x ∷ xs) = x

there : stream echoed.streams 0 ≡ some (first echoed.streams)
unfolding start poll_task
there = refl

Reach-IsEcho_example : IsEcho (first echoed.streams).sent (first echoed.streams).echo
Reach-IsEcho_example = Reach-IsEcho echoed 0 (first echoed.streams) echoed_reached there

-- The two bytes have come back.
both_back : (first echoed.streams).echo.output ≡ codes "hi"
unfolding start poll_task
both_back = refl
