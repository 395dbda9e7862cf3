-- ===== src/Tests/Exercises.antt =====
-- The exercises' solutions at concrete inputs.
use tokioconf_2026_workshop.Base.{ℕ, zero, suc, ◌≡◌, refl, true, false, some, none, [], ◌∷◌}
use tokioconf_2026_workshop.Workshop.Executor.{
  Poll, wake, Executor, block_on, panicked, block_on-double_wake,
}
use tokioconf_2026_workshop.Workshop.Futures.{
  ready, pending, oneshot, send, receive, receives, oneshot-delivers,
}
use tokioconf_2026_workshop.Workshop.Reactor
use tokioconf_2026_workshop.Workshop.Reactor.{
  set_waker, turn, contains, notify_token, Occurs, turn-wakes, turn-io_wakers,
}

-- Wakers.
abbrev w1 : ℕ
w1 = 1

abbrev w2 : ℕ
w2 = 2

abbrev w3 : ℕ
w3 = 3

oneshot-delivers_example :
    let sent = send 42 (receives {T = ℕ} (w1 ∷ []) oneshot) in
    (sent.2 ≡ some w1)
    × ((receive w2 sent.0).1 ≡ ready 42)
    × ((receive w3 (receive w2 sent.0).0).1 ≡ pending)
oneshot-delivers_example = oneshot-delivers 42 (w1 ∷ []) w2 w3

-- A future that wakes itself twice, is ready the next time, and panics behind that.
abbrev twice : Poll ℕ
twice i zero = some (record { future = 1; is_ready = false; effects = wake 0 ∷ wake 0 ∷ [] })
twice i (suc zero) = some (record { future = 2; is_ready = true; effects = [] })
twice i (suc (suc n)) = none

block_on-double_wake_example : block_on twice 4 [] 0 ≡ panicked
block_on-double_wake_example = block_on-double_wake twice 1 [] 0 1 2 refl refl refl

-- A future that yields as often as its number says.
abbrev yielding : Poll ℕ
yielding i zero = some (record { future = 0; is_ready = true; effects = [] })
yielding i (suc n) = some (record { future = n; is_ready = false; effects = wake i ∷ [] })

abbrev one_task : Executor ℕ
one_task = record { tasks = 2 ∷ []; queue = 0 ∷ []; done = false }

abbrev idle : Reactor.Reactor ℕ
idle = record { io_wakers = λ t. none; next_token = 3 }
