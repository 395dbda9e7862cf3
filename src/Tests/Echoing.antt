-- ===== src/Tests/Echoing.antt =====
-- The echo task at a concrete run: five bytes come in two reads, and go out in four writes.
use tokioconf_2026_workshop.Base.{ℕ, ◌≡◌, refl, true, false, List, [], ◌∷◌, codes}
use tokioconf_2026_workshop.Workshop.Reactor
use tokioconf_2026_workshop.Workshop.Reactor.{Occurs, turn, notify_token}
use tokioconf_2026_workshop.Workshop.Echo.{
  Answer, moved, would_block, Echo, reading, returned_ok, poll_echo, run_polls,
}

abbrev started : Echo ℕ
started = record {
  place = reading;
  input = codes "hello";
  output = [];
  reactor = Reactor.new;
  is_pending = false;
}

abbrev first_poll : List Answer
first_poll = moved 3 ∷ moved 2 ∷ would_block ∷ []

abbrev polls : List (ℕ × List Answer)
polls = (1, first_poll) ∷ (2, moved 1 ∷ moved 2 ∷ moved 1 ∷ moved 1 ∷ moved 0 ∷ []) ∷ []

echoed :
    ((run_polls 7 polls started).place ≡ returned_ok)
    × ((run_polls 7 polls started).output ≡ codes "hello")
unfolding run_polls
echoed = (refl, refl)

first_poll_waits : (poll_echo 7 1 first_poll started).is_pending ≡ true
unfolding poll_echo
first_poll_waits = refl
