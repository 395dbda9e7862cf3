-- ===== src/Server/Accept.antt =====
-- `Listener::accept`: retries with exponential back-off.
use tokioconf_2026_workshop.Base.{
  ℕ, zero, suc, ◌*◌, ◌≤◌, ◌≡◌, refl, List, [], ◌∷◌, ◌++◌, arith, ltb, if◌then◌else◌, length, map,
}
use tokioconf_2026_workshop.Frame.{Message}

-- What one call of `TcpListener::accept` finds.
pub data Attempt (Socket : Type 0) : Type 0 where
  accepted : Socket → Attempt Socket
  refused : Message → Attempt Socket

-- A result, or still asleep behind the last attempt; with the seconds slept so far.
pub data Accepting (Socket : Type 0) : Type 0 where
  returned : Socket → List ℕ → Accepting Socket
  failed : Message → List ℕ → Accepting Socket
  retrying : ℕ → List ℕ → Accepting Socket

module _ {Socket : Type 0} where
  unfoldable pub accept_loop : ℕ → List ℕ → List (Attempt Socket) → Accepting Socket
  accept_loop backoff slept [] = retrying backoff slept
  accept_loop backoff slept (accepted socket ∷ later) = returned socket slept
  accept_loop backoff slept (refused e ∷ later) =
      let again = accept_loop (backoff * 2) (slept ++ backoff ∷ []) later in
      if ltb 64 backoff then failed e slept else again

  unfoldable pub accept : List (Attempt Socket) → Accepting Socket
  unfolding accept_loop
  accept = accept_loop 1 []

-- `n` pauses from `b` seconds on, each twice the one before.
abbrev pub pauses : ℕ → ℕ → List ℕ
pauses b zero = []
pauses b (suc n) = b ∷ pauses (b * 2) n

module _ {Socket : Type 0} where
  -- At most seven failed attempts and then a connection: `accept` returns that connection, after
  -- a pause of 1 second behind the first failure and twice the last pause behind each other one.
  pub accept-retries :
      (es : List Message) (socket : Socket) (later : List (Attempt Socket))
      → length es ≤ 7
      → accept (map refused es ++ accepted socket ∷ later) ≡ returned socket (pauses 1 (length es))
  unfolding accept
  accept-retries [] socket later h = refl
  accept-retries (e0 ∷ []) socket later h = refl
  accept-retries (e0 ∷ e1 ∷ []) socket later h = refl
  accept-retries (e0 ∷ e1 ∷ e2 ∷ []) socket later h = refl
  accept-retries (e0 ∷ e1 ∷ e2 ∷ e3 ∷ []) socket later h = refl
  accept-retries (e0 ∷ e1 ∷ e2 ∷ e3 ∷ e4 ∷ []) socket later h = refl
  accept-retries (e0 ∷ e1 ∷ e2 ∷ e3 ∷ e4 ∷ e5 ∷ []) socket later h = refl
  accept-retries (e0 ∷ e1 ∷ e2 ∷ e3 ∷ e4 ∷ e5 ∷ e6 ∷ []) socket later h = refl
  accept-retries (e0 ∷ e1 ∷ e2 ∷ e3 ∷ e4 ∷ e5 ∷ e6 ∷ e7 ∷ es) socket later h = absurd (omega arith)

  -- `accept` gives up with the error of the eighth attempt that fails in a row, after seven
  -- pauses, the last one of 64 seconds; it does not wait for later attempts.
  pub accept-gives_up :
      (es : List Message) (e : Message) (later : List (Attempt Socket))
      → length es ≡ 7
      → accept (map refused es ++ refused e ∷ later) ≡ failed e (1 ∷ 2 ∷ 4 ∷ 8 ∷ 16 ∷ 32 ∷ 64 ∷ [])
  unfolding accept
  accept-gives_up [] e later h = absurd (omega arith)
  accept-gives_up (e0 ∷ []) e later h = absurd (omega arith)
  accept-gives_up (e0 ∷ e1 ∷ []) e later h = absurd (omega arith)
  accept-gives_up (e0 ∷ e1 ∷ e2 ∷ []) e later h = absurd (omega arith)
  accept-gives_up (e0 ∷ e1 ∷ e2 ∷ e3 ∷ []) e later h = absurd (omega arith)
  accept-gives_up (e0 ∷ e1 ∷ e2 ∷ e3 ∷ e4 ∷ []) e later h = absurd (omega arith)
  accept-gives_up (e0 ∷ e1 ∷ e2 ∷ e3 ∷ e4 ∷ e5 ∷ []) e later h = absurd (omega arith)
  accept-gives_up (e0 ∷ e1 ∷ e2 ∷ e3 ∷ e4 ∷ e5 ∷ e6 ∷ []) e later h = refl
  accept-gives_up (e0 ∷ e1 ∷ e2 ∷ e3 ∷ e4 ∷ e5 ∷ e6 ∷ e7 ∷ es) e later h = absurd (omega arith)
