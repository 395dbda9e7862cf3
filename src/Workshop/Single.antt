-- ===== src/Workshop/Single.antt =====
-- ex1_executor.rs: the executor of one future, which panics if it waits five seconds and is not
-- woken. The clock of its statistics is not here.
use tokioconf_2026_workshop.Base.{
  ℕ, ◌+◌, ◌≤◌, ◌<◌, ◌≡◌, ◌⊎◌, refl, inl, inr, Bool, true, false, Option, none, some, List, [], ◌∷◌,
  arith, if◌then◌else◌, length, All, Bool-cases,
}
use tokioconf_2026_workshop.Workshop.Futures.{
  Poll, ready, pending, Woken, DelayState, poll_delay, timer, new_delay,
}

-- `Signal`, by the flag `notified` behind its mutex.
unfoldable pub new : Bool
new = false

unfoldable pub notify : Bool → Bool
notify notified = true

-- One wait on the condition variable: whether it timed out, and the flag when it has returned.
-- It may also return with neither.
pub record Wait : Type 0 where
  pub timed_out : Bool
  pub notified : Bool

-- The flag, and whether the executor polls again.
unfoldable pub wait_timeout : Bool → Wait → Bool × Bool
wait_timeout notified w =
    if notified then (false, true) else if w.timed_out then (w.notified, false) else (false, true)

-- What other threads do behind a poll: to what they share with the future, and the flag. `before` is
-- before the executor looks at its flag, `during` while it waits.
pub record Meanwhile (F : Type 0) : Type 0 where
  pub before : F → F × Bool
  pub during : F → F × Bool
  pub timed_out : Bool

pub record Polled (F T : Type 0) : Type 0 where
  pub future : F
  pub result : Poll T
  pub wakes : Bool

-- `run` returned with its count of polls, panicked, or still waits.
pub data Run (F T : Type 0) : Type 0 where
  finished : T → ℕ → Run F T
  timeout : Run F T
  parked : F → Run F T

-- A wake sets the flag.
unfoldable pub told : Bool → Bool → Bool
unfolding notify
told wakes notified = if wakes then notify notified else notified

-- The future and the flag behind one round of the loop; `none` is the panic.
unfoldable pub pause : {F : Type 0} → Meanwhile F → F → Bool → Option (F × Bool)
unfolding wait_timeout told
pause m f notified =
    let (f₁, woken) = m.before f in
    let (f₂, later) = m.during f₁ in
    let first =
      wait_timeout (told woken notified) (record { timed_out = m.timed_out; notified = later }) in
    let waited = if told woken notified then f₁ else f₂ in
    if first.1 then some (waited, first.0) else none

module _ {F T : Type 0} where
  step : (F → Bool → Run F T) → Poll T → ℕ → Option (F × Bool) → Run F T
  step again (ready output) count p = finished output count
  step again pending count (some (f, notified)) = again f notified
  step again pending count none = timeout

  stop : F → Poll T → ℕ → Run F T
  stop f (ready output) count = finished output count
  stop f pending count = parked f

  -- The loop, after `count` polls.
  unfoldable pub loop : (F → Polled F T) → List (Meanwhile F) → ℕ → F → Bool → Run F T
  unfolding step stop pause told
  loop poll [] count f notified = let p = poll f in stop p.future p.result (count + 1)
  loop poll (m ∷ ms) count f notified =
      let p = poll f in
      step (loop poll ms (count + 1)) p.result (count + 1)
        (pause m p.future (told p.wakes notified))

  unfoldable pub run : (F → Polled F T) → List (Meanwhile F) → F → Run F T
  unfolding loop new
  run poll ms f = loop poll ms 0 f new

-- Other threads do not set the future back.
abbrev pub KeepsPace : {F : Type 0} → (F → ℕ) → Meanwhile F → Type 0
KeepsPace {F} left m = (f : F) → left (m.before f).0 ≤ left f

Poll-cases : {T : Type 0} (r : Poll T) → ((t : T) × (r ≡ ready t)) ⊎ (r ≡ pending)
Poll-cases (ready t) = inl (t, refl)
Poll-cases pending = inr refl

-- A wake that came first makes the wait return at once.
pause-told :
    {F : Type 0} (m : Meanwhile F) (f : F) (notified : Bool)
    → pause m f (told true notified) ≡ some ((m.before f).0, false)
unfolding pause
pause-told m f notified = elim (Bool-cases (m.before f).1) [ inl e ↦ rw e | inr e ↦ rw e ]

module _ {F T : Type 0} where
  -- Every poll that is not ready wakes the executor and comes nearer to the end.
  abbrev pub Progresses : (F → Polled F T) → (F → ℕ) → Type 0
  Progresses poll left =
      (f : F)
      → (poll f).result ≡ pending
      → ((poll f).wakes ≡ true) × (left (poll f).future < left f)

  -- `run` returned, after more than `low` polls and at most `high`.
  abbrev pub Within : ℕ → ℕ → Run F T → Type 0
  Within low high (finished output n) = (low < n) × (n ≤ high)
  Within low high timeout = ⊥
  Within low high (parked f) = ⊥

  wider : (low high a b : ℕ) (r : Run F T) → a ≤ low → high ≤ b → Within low high r → Within a b r
  wider low high a b (finished output n) h k w = omega arith
  wider low high a b timeout h k w = w
  wider low high a b (parked f) h k w = w

  loop-Within :
      (poll : F → Polled F T) (left : F → ℕ) (ms : List (Meanwhile F)) (count : ℕ) (f : F)
      (notified : Bool)
      → Progresses poll left
      → All (KeepsPace left) ms
      → left f ≤ length ms
      → Within count (count + left f + 1) (loop poll ms count f notified)
  unfolding loop
  loop-Within poll left [] count f notified go pace h = elim (Poll-cases (poll f).result) [
    | inl (t, e) ↦ rw e (omega arith)
    | inr e ↦ absurd (omega (arith, (go f e).1))
  ]
  loop-Within poll left (m ∷ ms) count f notified go (keeps, pace) h =
      elim (Poll-cases (poll f).result) [
        | inl (t, e) ↦ rw e (omega arith)
        | inr e ↦
            let f' = (m.before (poll f).future).0 in
            let near : left f' < left f = omega (arith, keeps (poll f).future, (go f e).1) in
            rw (e, (go f e).0, pause-told m (poll f).future notified)
              (wider (count + 1) (count + 1 + left f' + 1) count (count + left f + 1) _
                (omega arith) (omega arith)
                (loop-Within poll left ms (count + 1) f' false go pace (omega arith)))
      ]

  -- A future every one of whose polls is ready, or wakes the executor and comes nearer to the end
  -- by a measure, and that other threads do not set back: given as many waits as the measure says,
  -- `run` returns after at most one poll more, however long the waits are. It neither panics nor
  -- waits on.
  pub run-Within :
      (poll : F → Polled F T) (left : F → ℕ) (ms : List (Meanwhile F)) (f : F)
      → Progresses poll left
      → All (KeepsPace left) ms
      → left f ≤ length ms
      → Within 0 (left f + 1) (run poll ms f)
  unfolding run
  run-Within poll left ms f go pace h =
      wider 0 (0 + left f + 1) 0 (left f + 1) _ (omega arith) (omega arith)
        (loop-Within poll left ms 0 f new go pace h)

woke : {W : Type 0} → Option W → Bool
woke none = false
woke (some w) = true

-- A future of exercise 1 under this executor, whose waker is the executor's own.
unfoldable pub under : {F T : Type 0} → Woken (Unit {0}) F (Poll T) → Polled F T
unfolding woke
under (f, r, woken) = record { future = f; result = r; wakes = woke woken }

unfoldable pub poll_once : DelayState (Unit {0}) → Polled (DelayState (Unit {0})) (Unit {0})
unfolding poll_delay under
poll_once s = under (poll_delay tt s)

-- The thread of the delay has slept.
unfoldable pub fires : DelayState (Unit {0}) → DelayState (Unit {0}) × Bool
unfolding timer woke
fires s = ((timer s).0, woke (timer s).2)

unfoldable pub quiet : DelayState (Unit {0}) → DelayState (Unit {0}) × Bool
quiet s = (s, false)

-- A delay whose thread is done before the first poll takes one poll. One whose thread is done between
-- the first poll and the wait, or during the wait, takes two, with the executor woken by the thread.
-- One whose thread is not done when the wait times out makes the executor panic.
pub run-delay :
    (ms : List (Meanwhile (DelayState (Unit {0}))))
    (other : DelayState (Unit {0}) → DelayState (Unit {0}) × Bool) (t : Bool)
    → (run poll_once ms (timer new_delay).0 ≡ finished tt 1)
      × (run poll_once (record { before = fires; during = other; timed_out = t } ∷ ms) new_delay
          ≡ finished tt 2)
      × (run poll_once (record { before = quiet; during = fires; timed_out = false } ∷ ms) new_delay
          ≡ finished tt 2)
      × (run poll_once (record { before = quiet; during = quiet; timed_out = true } ∷ ms) new_delay
          ≡ timeout)
unfolding run poll_once fires quiet new_delay timer
run-delay [] other t = (refl, refl, refl, refl)
run-delay (m ∷ ms) other t = (refl, refl, refl, refl)
