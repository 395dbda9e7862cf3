-- ===== src/Tests/Executors.antt =====
-- The executors of one future at concrete inputs.
use tokioconf_2026_workshop.Base.{
  ℕ, zero, suc, ◌-◌, ◌<◌, ◌≡◌, refl, Bool, true, false, some, none, [], ◌∷◌, arith, if◌then◌else◌,
}
use tokioconf_2026_workshop.Workshop.Blocking
use tokioconf_2026_workshop.Workshop.Blocking.{
  block_on, returned, Proper, Progresses, Keeps, block_on-Keeps, block_on-returns,
}
use tokioconf_2026_workshop.Workshop.Futures.{poll_yield, yield_now}
use tokioconf_2026_workshop.Workshop.Single
use tokioconf_2026_workshop.Workshop.Single.{
  Meanwhile, run, finished, timeout, Within, run-Within, poll_once, fires, quiet, run-delay, under,
}

-- `YieldNow` under the executor of exercise 1.
abbrev yielding : Bool → Single.Polled Bool (Unit {0})
yielding yielded = under (poll_yield tt yielded)

abbrev left : Bool → ℕ
left yielded = if yielded then 0 else 1

-- Nobody else, and a wait that would time out.
abbrev alone : Meanwhile Bool
alone = record { before = λ f. (f, false); during = λ f. (f, false); timed_out = true }

yielding-Progresses : Single.Progresses yielding left
unfolding poll_yield under
yielding-Progresses true e = cc
yielding-Progresses false e = (refl, omega arith)

same_pace : Single.KeepsPace left alone
same_pace f = omega arith

run-Within_example : Within 0 2 (run yielding (alone ∷ []) yield_now)
unfolding yield_now
run-Within_example =
    run-Within yielding left (alone ∷ []) yield_now yielding-Progresses (same_pace, tt)
      (omega arith)

-- As the exercise's test wants it.
yielding_lem : run yielding (alone ∷ []) yield_now ≡ finished tt 2
unfolding run yield_now poll_yield under
yielding_lem = refl

-- A future that wakes its task twice, is ready the next time, and panics behind that.
abbrev twice : Blocking.Poll ℕ
twice zero = some (record { future = 1; is_ready = false; wakes = 2 })
twice (suc zero) = some (record { future = 2; is_ready = true; wakes = 0 })
twice (suc (suc n)) = none

twice-Proper : Proper twice (λ f. f < 2)
twice-Proper zero h = (_, refl, λ e. omega arith)
twice-Proper (suc zero) h = (_, refl, λ e. cc)
twice-Proper (suc (suc n)) h = absurd (omega arith)

block_on-Keeps_example : Keeps (λ f. f < 2) (block_on twice 4 (1 ∷ []) 0)
block_on-Keeps_example = block_on-Keeps twice (λ f. f < 2) 4 (1 ∷ []) 0 twice-Proper (omega arith)

twice-Progresses : Progresses twice (λ f. f < 2) (λ f. 1 - f)
twice-Progresses zero h = (_, refl, λ e. (omega arith, omega arith, omega arith))
twice-Progresses (suc zero) h = (_, refl, λ e. cc)
twice-Progresses (suc (suc n)) h = absurd (omega arith)

block_on-returns_example : (g : ℕ) × (block_on twice 2 [] 0 ≡ returned g)
block_on-returns_example =
    block_on-returns twice (λ f. f < 2) (λ f. 1 - f) 2 0 twice-Progresses (omega arith)
      (omega arith)
