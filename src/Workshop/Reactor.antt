-- ===== src/Workshop/Reactor.antt =====
-- solutions/ex3.rs: the reactor's map from tokens to wakers.
use tokioconf_2026_workshop.Base.{
  ℕ, ◌+◌, ◌-◌, ◌^◌, ◌≡◌, ◌≢◌, refl, ◌∙◌, ◌⊎◌, inl, inr, Bool, true, false, not, ◌&&◌, ◌||◌, Option,
  none, some, List, [], ◌∷◌, ◌++◌, arith, ◌==◌, if◌then◌else◌, Bool-cases,
}

-- `NOTIFY_TOKEN`, the largest `usize`.
abbrev pub notify_token : ℕ
notify_token = 2 ^ 64 - 1

pub record Reactor (W : Type 0) : Type 0 where
  pub io_wakers : ℕ → Option W
  pub next_token : ℕ

abbrev pub contains : ℕ → List ℕ → Bool
contains u [] = false
contains u (t ∷ ts) = (u == t) || contains u ts

module _ {W : Type 0} where
  unfoldable pub new : Reactor W
  new = record { io_wakers = λ t. none; next_token = 0 }

  -- The token of a new source.
  unfoldable pub register : Reactor W → ℕ × Reactor W
  register r = (r.next_token, record r { next_token = r.next_token + 1 })

  abbrev update : (ℕ → Option W) → ℕ → Option W → ℕ → Option W
  update m t o u = if u == t then o else m u

  unfoldable pub set_waker : ℕ → W → Reactor W → Reactor W
  set_waker t w r = record r { io_wakers = update r.io_wakers t (some w) }

  -- One event of `turn`: the waker is removed, and woken.
  unfoldable pub dispatch : ℕ → Reactor W → Reactor W × Option W
  dispatch t r =
      if t == notify_token
      then (r, none)
      else (record r { io_wakers = update r.io_wakers t none }, r.io_wakers t)

  unfoldable pub append_waker : List W → Option W → List W
  append_waker ws none = ws
  append_waker ws (some w) = ws ++ w ∷ []

  -- The events of one `poll`, with the wakers woken so far.
  unfoldable pub turn : List ℕ → Reactor W → List W → Reactor W × List W
  unfolding dispatch append_waker
  turn [] r woken = (r, woken)
  turn (t ∷ ts) r woken = turn ts (dispatch t r).0 (append_waker woken (dispatch t r).1)

  -- A turn forgets the wakers of the tokens that it was told of, and no other.
  pub turn-io_wakers :
      (ts : List ℕ) (r : Reactor W) (woken : List W) (u : ℕ)
      → (turn ts r woken).0.io_wakers u
        ≡ (if contains u ts && not (u == notify_token) then none else r.io_wakers u)
  unfolding turn
  turn-io_wakers [] r woken u = refl
  turn-io_wakers (t ∷ ts) r woken u =
      let ih = turn-io_wakers ts (dispatch t r).0 (append_waker woken (dispatch t r).1) u in
      ground (arith, ih)

  abbrev pub Occurs : W → List W → Type 0
  Occurs w [] = ⊥
  Occurs w (x ∷ xs) = (w ≡ x) ⊎ Occurs w xs

  Occurs-front : (w : W) (xs ys : List W) → Occurs w xs → Occurs w (xs ++ ys)
  Occurs-front w [] ys h = absurd h
  Occurs-front w (x ∷ xs) ys (inl e) = inl e
  Occurs-front w (x ∷ xs) ys (inr h) = inr (Occurs-front w xs ys h)

  Occurs-end : (w : W) (xs : List W) → Occurs w (xs ++ w ∷ [])
  Occurs-end w [] = inl refl
  Occurs-end w (x ∷ xs) = inr (Occurs-end w xs)

  keeps : (w : W) (xs : List W) (o : Option W) → Occurs w xs → Occurs w (append_waker xs o)
  unfolding append_waker
  keeps w xs none h = h
  keeps w xs (some x) h = Occurs-front w xs (x ∷ []) h

  turn-keeps :
      (ts : List ℕ) (r : Reactor W) (woken : List W) (w : W)
      → Occurs w woken
      → Occurs w (turn ts r woken).1
  unfolding turn
  turn-keeps [] r woken w h = h
  turn-keeps (t ∷ ts) r woken w h =
      turn-keeps ts (dispatch t r).0 (append_waker woken (dispatch t r).1) w
        (keeps w woken (dispatch t r).1 h)

  wakes :
      (t : ℕ) (w : W) (ts : List ℕ) (r : Reactor W) (woken : List W)
      → t ≢ notify_token
      → contains t ts ≡ true
      → r.io_wakers t ≡ some w
      → Occurs w (turn ts r woken).1
  unfolding turn
  wakes t w [] r woken n h e = cc
  wakes t w (u ∷ ts) r woken n h e = elim (Bool-cases (t == u)) [
    | inl q ↦
        let found : (dispatch u r).1 ≡ some w = ground arith in
        turn-keeps ts (dispatch u r).0 (append_waker woken (dispatch u r).1) w
          (rw found (Occurs-end w woken))
    | inr q ↦
        wakes t w ts (dispatch u r).0 (append_waker woken (dispatch u r).1) n (ground arith)
          (ground arith)
  ]

  -- The last waker stored for a token is woken by a turn with an event of that token, and is
  -- stored no longer behind the turn. The token is not the one of the executor's own signal.
  pub turn-wakes :
      (ts : List ℕ) (r : Reactor W) (t : ℕ) (w : W)
      → t ≢ notify_token
      → contains t ts ≡ true
      → Occurs w (turn ts (set_waker t w r) []).1
        × ((turn ts (set_waker t w r) []).0.io_wakers t ≡ none)
  turn-wakes ts r t w not_notify h = (
    wakes t w ts (set_waker t w r) [] not_notify h (unfold set_waker in ground arith),
    turn-io_wakers ts (set_waker t w r) [] t ∙ (ground arith),
  )
