-- ===== src/Workshop/Futures.antt =====
-- solutions/ex1_1.rs, ex1_2.rs and ex1_3.rs: `YieldNow`, `Delay` and the oneshot channel. A waker
-- is a value of the type `W`; an operation returns the waker that it wakes, if any.
use tokioconf_2026_workshop.Base.{
  ◌≡◌, refl, Bool, true, false, Option, none, some, List, [], ◌∷◌, if◌then◌else◌,
}

pub data Poll {ℓ} (A : Type ℓ) : Type ℓ where
  ready : A → Poll A
  pending : Poll A

-- A step on the shared state: the new state, the result, and the waker woken on the way.
abbrev pub Woken : Type 0 → Type 0 → Type 0 → Type 0
Woken W S A = S × A × Option W

-- `YieldNow`, by its field `yielded`.
unfoldable pub yield_now : Bool
yield_now = false

module _ {W : Type 0} where
  unfoldable pub poll_yield : W → Bool → Woken W Bool (Poll (Unit {0}))
  poll_yield w yielded = if yielded then (yielded, ready tt, none) else (true, pending, some w)

-- `DelayState`, behind its mutex.
pub record DelayState (W : Type 0) : Type 0 where
  pub complete : Bool
  pub waker : Option W

module _ {W : Type 0} where
  unfoldable pub new_delay : DelayState W
  new_delay = record { complete = false; waker = none }

  -- What the thread does once it has slept.
  unfoldable pub timer : DelayState W → Woken W (DelayState W) (Unit {0})
  timer s = (record { complete = true; waker = none }, tt, s.waker)

  unfoldable pub poll_delay : W → DelayState W → Woken W (DelayState W) (Poll (Unit {0}))
  poll_delay w s =
      if s.complete
      then (s, ready tt, none)
      else (record { complete = s.complete; waker = some w }, pending, none)

  -- A run of polls by the executor, each with the waker that it passes.
  unfoldable pub poll_delays : List W → DelayState W → DelayState W
  unfolding poll_delay
  poll_delays [] s = s
  poll_delays (w ∷ ws) s = poll_delays ws (poll_delay w s).0

-- `Inner<T>` of the oneshot channel, behind its mutex.
pub record Inner (W T : Type 0) : Type 0 where
  pub value : Option T
  pub waker : Option W

module _ {W T : Type 0} where
  unfoldable pub oneshot : Inner W T
  oneshot = record { value = none; waker = none }

  -- `Sender::send`, which consumes the sender.
  unfoldable pub send : T → Inner W T → Woken W (Inner W T) (Unit {0})
  send v s = (record { value = some v; waker = none }, tt, s.waker)

  unfoldable pub poll_value : W → Inner W T → Option T → Woken W (Inner W T) (Poll T)
  poll_value w s (some v) = (record { value = none; waker = s.waker }, ready v, none)
  poll_value w s none = (record { value = none; waker = some w }, pending, none)

  -- `poll` of the `Receiver`.
  unfoldable pub receive : W → Inner W T → Woken W (Inner W T) (Poll T)
  unfolding poll_value
  receive w s = poll_value w s s.value

  unfoldable pub receives : List W → Inner W T → Inner W T
  unfolding receive
  receives [] s = s
  receives (w ∷ ws) s = receives ws (receive w s).0

module _ {W : Type 0} where
  -- The first poll is pending and wakes its own task; every later poll is ready and wakes nobody.
  pub yield-once :
      (w w' : W)
      → ((poll_yield w yield_now).1 ≡ pending)
        × ((poll_yield w yield_now).2 ≡ some w)
        × (poll_yield w' (poll_yield w yield_now).0 ≡ (true, ready tt, none))
  unfolding poll_yield yield_now
  yield-once w w' = (refl, refl, refl)

-- The waker of the last poll.
abbrev pub last_or {ℓ} : {A : Type ℓ} → Option A → List A → Option A
last_or o [] = o
last_or o (a ∷ as') = last_or (some a) as'

module _ {W : Type 0} where
  poll_delays-last :
      (ws : List W) (o : Option W)
      → poll_delays ws (record { complete = false; waker = o })
        ≡ record { complete = false; waker = last_or o ws }
  unfolding poll_delays
  poll_delays-last [] o = refl
  poll_delays-last (w ∷ ws) o = poll_delays-last ws (some w)

  -- However often the delay is polled before the timer fires: the timer wakes the waker of the
  -- last poll, or nobody if there was none, and the next poll is ready.
  pub delay-wakes_last :
      (ws : List W) (w : W)
      → ((timer (poll_delays ws new_delay)).2 ≡ last_or none ws)
        × ((poll_delay w (timer (poll_delays ws new_delay)).0).1 ≡ ready tt)
  unfolding timer poll_delay new_delay
  delay-wakes_last ws w = (rw (poll_delays-last ws none), refl)

module _ {W T : Type 0} where
  receives-last :
      (ws : List W) (o : Option W)
      → receives {T = T} ws (record { value = none; waker = o })
        ≡ record { value = none; waker = last_or o ws }
  unfolding receives
  receives-last [] o = refl
  receives-last (w ∷ ws) o = receives-last ws (some w)

  -- However often the receiver is polled before the value is sent: `send` wakes the waker of the
  -- last poll, or nobody if there was none; the next poll takes the value; and a poll behind it is
  -- pending again.
  pub oneshot-delivers :
      (v : T) (ws : List W) (w w' : W)
      → let sent = send v (receives ws oneshot) in
        (sent.2 ≡ last_or none ws)
        × ((receive w sent.0).1 ≡ ready v)
        × ((receive w' (receive w sent.0).0).1 ≡ pending)
  unfolding send receive oneshot
  oneshot-delivers v ws w w' = (rw (receives-last ws none), refl, refl)
