-- ===== src/Workshop/Executor.antt =====
-- solutions/ex2_1.rs and ex2_2.rs: a queue of tasks, polled until the main future is done. The
-- executors' futures are any type `F` with a `poll`, the program's argument `dyn Future`.
use tokioconf_2026_workshop.Base.{
  ℕ, zero, suc, ◌≡◌, refl, sym, ap, ◌∙◌, inl, inr, Bool, true, false, ◌&&◌, ◌||◌, Option, none,
  some, List, [], ◌∷◌, ◌++◌, ◌==◌, if◌then◌else◌, length, Bool-cases,
}

-- What one poll does to the executor: a wake of a task, by its number, or a `spawn`.
pub data Effect (F : Type 0) : Type 0 where
  wake : ℕ → Effect F
  spawned : F → Effect F

pub record Polled (F : Type 0) : Type 0 where
  pub future : F
  pub is_ready : Bool
  pub effects : List (Effect F)

-- `poll i f` polls `f` with the waker of task `i`; `none` is a panic.
abbrev pub Poll : Type 0 → Type 0
Poll F = ℕ → F → Option (Polled F)

-- Task `i` is `tasks[i]`, the main task is task 0; `done` is the flag that its wrapper sets.
pub record Executor (F : Type 0) : Type 0 where
  pub tasks : List F
  pub queue : List ℕ
  pub done : Bool

pub data Drained (F : Type 0) : Type 0 where
  idle : Executor F → Drained F
  panic : Drained F
  out_of_fuel : Drained F

module _ {F : Type 0} where
  abbrev task : List F → ℕ → Option F
  task [] i = none
  task (f ∷ fs) zero = some f
  task (f ∷ fs) (suc i) = task fs i

  abbrev put : List F → ℕ → F → List F
  put [] i g = []
  put (f ∷ fs) zero g = g ∷ fs
  put (f ∷ fs) (suc i) g = f ∷ put fs i g

  -- `Task::wake_by_ref` and `spawn` push onto the queue.
  unfoldable pub apply_effects : List (Effect F) → Executor F → Executor F
  apply_effects [] ex = ex
  apply_effects (wake i ∷ es) ex =
      apply_effects es (record { tasks = ex.tasks; queue = ex.queue ++ i ∷ []; done = ex.done })
  apply_effects (spawned f ∷ es) ex = apply_effects es (record {
    tasks = ex.tasks ++ f ∷ [];
    queue = ex.queue ++ length ex.tasks ∷ [];
    done = ex.done;
  })

  finish_poll : ℕ → Executor F → Option (Polled F) → Drained F
  unfolding apply_effects
  finish_poll i ex none = panic
  finish_poll i ex (some p) = idle (
      apply_effects p.effects (record {
        tasks = put ex.tasks i p.future;
        queue = ex.queue;
        done = ex.done || ((i == 0) && p.is_ready);
      }))

  poll_task : Poll F → ℕ → Executor F → Option F → Drained F
  unfolding finish_poll
  poll_task poll i ex none = idle ex
  poll_task poll i ex (some f) = finish_poll i ex (poll i f)

  continue_with : (Executor F → Drained F) → Drained F → Drained F
  continue_with k (idle ex) = k ex
  continue_with k panic = panic
  continue_with k out_of_fuel = out_of_fuel

  pop_front : Poll F → (Executor F → Drained F) → List ℕ → Executor F → Drained F
  unfolding poll_task continue_with
  pop_front poll k [] ex = idle ex
  pop_front poll k (i ∷ rest) ex = continue_with k (
      poll_task poll i (record { tasks = ex.tasks; queue = rest; done = ex.done })
        (task ex.tasks i))

  -- The inner loop of `block_on`: pop a task and poll it, until the queue is empty.
  unfoldable pub drain : Poll F → ℕ → Executor F → Drained F
  unfolding pop_front
  drain poll zero ex = out_of_fuel
  drain poll (suc fuel) ex = pop_front poll (drain poll fuel) ex.queue ex

  -- `spawn` from the main thread's point of view: `CURRENT` is set while `block_on` runs.
  unfoldable pub spawn : F → Option (Executor F) → Option (Executor F)
  unfolding apply_effects
  spawn f none = none
  spawn f (some ex) = some (apply_effects (spawned f ∷ []) ex)

-- `block_on` returned, is parked with an empty queue, or panicked.
pub data Blocked (F : Type 0) : Type 0 where
  returned : Executor F → Blocked F
  parked : Executor F → Blocked F
  panicked : Blocked F
  gave_up : Blocked F

module _ {F : Type 0} where
  after_drain : (Executor F → Blocked F) → Drained F → Blocked F
  after_drain k (idle ex) = if ex.done then returned ex else k ex
  after_drain k panic = panicked
  after_drain k out_of_fuel = gave_up

  -- The outer loop; each list holds the effects of other threads that end one `park`.
  unfoldable pub rounds : Poll F → ℕ → List (List (Effect F)) → Executor F → Blocked F
  unfolding drain after_drain apply_effects
  rounds poll fuel [] ex = after_drain parked (drain poll fuel ex)
  rounds poll fuel (es ∷ later) ex =
      after_drain (λ ex'. rounds poll fuel later (apply_effects es ex')) (drain poll fuel ex)

  unfoldable pub block_on : Poll F → ℕ → List (List (Effect F)) → F → Blocked F
  unfolding rounds
  block_on poll fuel unparks fut =
      rounds poll fuel unparks (record { tasks = fut ∷ []; queue = 0 ∷ []; done = false })

  queue_of : Drained F → List ℕ
  queue_of (idle ex) = ex.queue
  queue_of panic = []
  queue_of out_of_fuel = []

  idle-queue : (ex ex' : Executor F) → idle ex ≡ idle ex' → ex.queue ≡ ex'.queue
  unfolding queue_of
  idle-queue ex ex' e = ap queue_of e

  continue_with-idle :
      (k : Executor F → Drained F) (r : Drained F) (ex' : Executor F)
      → ((ex : Executor F) → k ex ≡ idle ex' → ex'.queue ≡ [])
      → continue_with k r ≡ idle ex'
      → ex'.queue ≡ []
  unfolding continue_with
  continue_with-idle k (idle ex) ex' ih h = ih ex h
  continue_with-idle k panic ex' ih h = cc
  continue_with-idle k out_of_fuel ex' ih h = cc

  -- Where a drain of the queue ends, no task is left in the queue.
  drain-empty :
      (poll : Poll F) (fuel : ℕ) (ex ex' : Executor F)
      → drain poll fuel ex ≡ idle ex'
      → ex'.queue ≡ []
  unfolding drain
  drain-empty poll zero ex ex' h = cc
  drain-empty poll (suc fuel) ex ex' h =
      popped (λ e k. drain-empty poll fuel e ex' k) ex.queue refl h
    where
      popped :
          ((e : Executor F) → drain poll fuel e ≡ idle ex' → ex'.queue ≡ [])
          → (q : List ℕ) → ex.queue ≡ q
          → pop_front poll (drain poll fuel) q ex ≡ idle ex'
          → ex'.queue ≡ []
      popped ih [] e k = sym (idle-queue ex ex' k) ∙ e
      popped ih (i ∷ rest) e k = continue_with-idle (drain poll fuel) _ ex' ih k

  -- What `block_on` has reached when it returns or parks.
  abbrev pub IsSettled : Blocked F → Type 0
  IsSettled (returned ex) = (ex.done ≡ true) × (ex.queue ≡ [])
  IsSettled (parked ex) = (ex.done ≡ false) × (ex.queue ≡ [])
  IsSettled panicked = Unit
  IsSettled gave_up = Unit

  after_drain-IsSettled :
      (k : Executor F → Blocked F) (r : Drained F)
      → ((ex : Executor F) → r ≡ idle ex → ex.queue ≡ [])
      → ((ex : Executor F) → r ≡ idle ex → ex.done ≡ false → IsSettled (k ex))
      → IsSettled (after_drain k r)
  unfolding after_drain
  after_drain-IsSettled k (idle ex) empty h = elim (Bool-cases ex.done) [
    | inl e ↦ simp e (refl, empty ex refl)
    | inr e ↦ simp e (h ex refl e)
  ]
  after_drain-IsSettled k panic empty h = tt
  after_drain-IsSettled k out_of_fuel empty h = tt

  -- Whatever the tasks and the other threads do: the executor returns only with the main future
  -- done, and parks only with the main future not done, both with no task left in the queue.
  pub rounds-IsSettled :
      (poll : Poll F) (fuel : ℕ) (unparks : List (List (Effect F))) (ex : Executor F)
      → IsSettled (rounds poll fuel unparks ex)
  unfolding rounds
  rounds-IsSettled poll fuel [] ex =
      after_drain-IsSettled parked (drain poll fuel ex) (drain-empty poll fuel ex)
        (λ ex' e d. (d, drain-empty poll fuel ex ex' e))
  rounds-IsSettled poll fuel (es ∷ later) ex =
      after_drain-IsSettled _ (drain poll fuel ex) (drain-empty poll fuel ex)
        (λ ex' e d. rounds-IsSettled poll fuel later (apply_effects es ex'))

  -- A main future that wakes itself twice in its first poll, is ready in its second, and may not be
  -- polled again: it stands in the queue once more when it is done, and `block_on` panics.
  pub block_on-double_wake :
      (poll : Poll F) (fuel : ℕ) (unparks : List (List (Effect F))) (f₀ f₁ f₂ : F)
      → poll 0 f₀ ≡ some (record { future = f₁; is_ready = false; effects = wake 0 ∷ wake 0 ∷ [] })
      → poll 0 f₁ ≡ some (record { future = f₂; is_ready = true; effects = [] })
      → poll 0 f₂ ≡ none
      → block_on poll (suc (suc (suc fuel))) unparks f₀ ≡ panicked
  unfolding block_on finish_poll
  block_on-double_wake poll fuel unparks f₀ f₁ f₂ e₀ e₁ e₂ = by_rounds unparks
    where
      drained :
          drain poll
            (suc (suc (suc fuel)))
            (record { tasks = f₀ ∷ []; queue = 0 ∷ []; done = false })
          ≡ panic
      drained = rw (e₀, e₁, e₂)

      by_rounds :
          (us : List (List (Effect F)))
          → rounds poll
              (suc (suc (suc fuel)))
              us
              (record { tasks = f₀ ∷ []; queue = 0 ∷ []; done = false })
            ≡ panicked
      by_rounds [] = rw drained
      by_rounds (es ∷ later) = rw drained
