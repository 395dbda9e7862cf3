-- ===== src/Workshop/Blocking.antt =====
-- solutions/ex2_1.rs: `block_on` with a queue that holds the one task as often as it was woken.
use tokioconf_2026_workshop.Base.{
  ℕ, zero, suc, ◌+◌, ◌<◌, ◌≡◌, refl, inl, inr, Bool, false, Option, none, some, List, [], ◌∷◌,
  arith, if◌then◌else◌, Bool-cases,
}

-- What one poll does: `wakes` is how often the task is pushed onto the queue until the poll is over.
pub record Polled (F : Type 0) : Type 0 where
  pub future : F
  pub is_ready : Bool
  pub wakes : ℕ

-- `none` is a panic of the future.
abbrev pub Poll : Type 0 → Type 0
Poll F = F → Option (Polled F)

-- `block_on` returned, is parked with an empty queue, or panicked.
pub data Blocked (F : Type 0) : Type 0 where
  returned : F → Blocked F
  parked : F → Blocked F
  panicked : Blocked F
  out_of_fuel : Blocked F

module _ {F : Type 0} where
  finish_poll : (ℕ → F → Blocked F) → ℕ → Option (Polled F) → Blocked F
  finish_poll again queued none = panicked
  finish_poll again queued (some p) =
      if p.is_ready then returned p.future else again (queued + p.wakes) p.future

  -- The inner loop, with `queued` entries in the queue; it returns as soon as the future is ready.
  unfoldable pub drain : Poll F → ℕ → ℕ → F → Blocked F
  unfolding finish_poll
  drain poll zero queued f = out_of_fuel
  drain poll (suc fuel) zero f = parked f
  drain poll (suc fuel) (suc queued) f = finish_poll (drain poll fuel) queued (poll f)

  unpark : (F → Blocked F) → Blocked F → Blocked F
  unpark k (parked f) = k f
  unpark k (returned f) = returned f
  unpark k panicked = panicked
  unpark k out_of_fuel = out_of_fuel

  -- The outer loop; each number says how often other threads woke the task before a `park` ended.
  unfoldable pub rounds : Poll F → ℕ → List ℕ → ℕ → F → Blocked F
  unfolding drain unpark
  rounds poll fuel [] queued f = drain poll fuel queued f
  rounds poll fuel (n ∷ later) queued f =
      unpark (rounds poll fuel later n) (drain poll fuel queued f)

  unfoldable pub block_on : Poll F → ℕ → List ℕ → F → Blocked F
  unfolding rounds
  block_on poll fuel unparks f = rounds poll fuel unparks 1 f

  -- A poll that does not panic, and leaves the future in a state fit for polling if it is not ready.
  abbrev pub Proper : Poll F → (F → Type 0) → Type 0
  Proper poll Fit =
      (f : F) → Fit f → (p : Polled F) × (poll f ≡ some p) × (p.is_ready ≡ false → Fit p.future)

  -- `block_on` did not panic, and parks a future that is fit for polling.
  abbrev pub Keeps : (F → Type 0) → Blocked F → Type 0
  Keeps Fit (returned f) = Unit
  Keeps Fit (parked f) = Fit f
  Keeps Fit panicked = ⊥
  Keeps Fit out_of_fuel = Unit

  drain-Keeps :
      (poll : Poll F) (Fit : F → Type 0) (fuel queued : ℕ) (f : F)
      → Proper poll Fit
      → Fit f
      → Keeps Fit (drain poll fuel queued f)
  unfolding drain
  drain-Keeps poll Fit zero queued f proper h = tt
  drain-Keeps poll Fit (suc fuel) zero f proper h = h
  drain-Keeps poll Fit (suc fuel) (suc queued) f proper h =
      let (p, polled, fit) = proper f h in
      elim (Bool-cases p.is_ready) [
        | inl e ↦ rw (polled, e) tt
        | inr e ↦
            rw (polled, e) (drain-Keeps poll Fit fuel (queued + p.wakes) p.future proper (fit e))
      ]

  unpark-Keeps :
      (Fit : F → Type 0) (k : F → Blocked F) (r : Blocked F)
      → ((f : F) → Fit f → Keeps Fit (k f))
      → Keeps Fit r
      → Keeps Fit (unpark k r)
  unfolding unpark
  unpark-Keeps Fit k (returned f) h kept = tt
  unpark-Keeps Fit k (parked f) h kept = h f kept
  unpark-Keeps Fit k panicked h kept = kept
  unpark-Keeps Fit k out_of_fuel h kept = tt

  rounds-Keeps :
      (poll : Poll F) (Fit : F → Type 0) (fuel : ℕ) (unparks : List ℕ) (queued : ℕ) (f : F)
      → Proper poll Fit
      → Fit f
      → Keeps Fit (rounds poll fuel unparks queued f)
  unfolding rounds
  rounds-Keeps poll Fit fuel [] queued f proper h = drain-Keeps poll Fit fuel queued f proper h
  rounds-Keeps poll Fit fuel (n ∷ later) queued f proper h =
      unpark-Keeps Fit (rounds poll fuel later n) (drain poll fuel queued f)
        (λ f' h'. rounds-Keeps poll Fit fuel later n f' proper h')
        (drain-Keeps poll Fit fuel queued f proper h)

  -- If a future may be polled until it is ready without a panic, then `block_on` does not panic,
  -- however often the future and other threads wake the task: in particular it does not poll a
  -- future that is done. Where it parks, the future may be polled.
  pub block_on-Keeps :
      (poll : Poll F) (Fit : F → Type 0) (fuel : ℕ) (unparks : List ℕ) (f : F)
      → Proper poll Fit
      → Fit f
      → Keeps Fit (block_on poll fuel unparks f)
  unfolding block_on
  block_on-Keeps poll Fit fuel unparks f proper h = rounds-Keeps poll Fit fuel unparks 1 f proper h

  -- Every poll that is not ready wakes the task and comes nearer to the end.
  abbrev pub Progresses : Poll F → (F → Type 0) → (F → ℕ) → Type 0
  Progresses poll Fit left =
      (f : F)
      → Fit f
      → (p : Polled F) × (poll f ≡ some p)
        × (p.is_ready ≡ false → Fit p.future × (0 < p.wakes) × (left p.future < left f))

  drain-returns :
      (poll : Poll F) (Fit : F → Type 0) (left : F → ℕ) (fuel queued : ℕ) (f : F)
      → Progresses poll Fit left
      → Fit f
      → 0 < queued
      → left f < fuel
      → (g : F) × (drain poll fuel queued f ≡ returned g)
  unfolding drain
  drain-returns poll Fit left zero queued f go h some_left enough = absurd (omega arith)
  drain-returns poll Fit left (suc fuel) zero f go h some_left enough = absurd (omega arith)
  drain-returns poll Fit left (suc fuel) (suc queued) f go h some_left enough =
      let (p, polled, on) = go f h in
      elim (Bool-cases p.is_ready) [
        | inl e ↦ rw (polled, e) (p.future, refl)
        | inr e ↦
            rw (polled, e)
              (drain-returns poll Fit left fuel (queued + p.wakes) p.future go (on e).0
                (omega (arith, (on e).1)) (omega (arith, (on e).2)))
      ]

  -- A future whose every poll is ready, or wakes the task and comes nearer to the end by a measure:
  -- `block_on` returns without parking once, if its fuel is larger than the measure.
  pub block_on-returns :
      (poll : Poll F) (Fit : F → Type 0) (left : F → ℕ) (fuel : ℕ) (f : F)
      → Progresses poll Fit left
      → Fit f
      → left f < fuel
      → (g : F) × (block_on poll fuel [] f ≡ returned g)
  unfolding block_on
  block_on-returns poll Fit left fuel f go h enough =
      drain-returns poll Fit left fuel 1 f go h (omega arith) enough
