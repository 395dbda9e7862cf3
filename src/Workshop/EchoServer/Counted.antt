-- ===== src/Workshop/EchoServer/Counted.antt =====
-- Where the tasks of the echo server are, as numbers: in the queue, waiting in the reactor, or over; and
-- what a turn of the reactor moves.
use tokioconf_2026_workshop.Base.{
  ℕ, zero, suc, ◌+◌, ◌≡◌, refl, ◌∙◌, inl, inr, Bool, true, false, Option, none, some, List, [], ◌∷◌,
  ◌++◌, arith, if◌then◌else◌, ◌==◌, Bool-cases,
}
use tokioconf_2026_workshop.Workshop.Echo.{is_over}
use tokioconf_2026_workshop.Workshop.EchoServer.{Stream, System}
use tokioconf_2026_workshop.Workshop.Reactor
use tokioconf_2026_workshop.Workshop.Reactor.{
  Reactor, set_waker, dispatch, append_waker, notify_token,
}

-- How often a task stands in the queue.
abbrev pub count : ℕ → List ℕ → ℕ
count i [] = 0
count i (j ∷ js) = (if i == j then 1 else 0) + count i js

abbrev pub stored : Option ℕ → ℕ
stored none = 0
stored (some w) = 1

abbrev pub over : Bool → ℕ
over true = 1
over false = 0

abbrev pub over_in : ℕ → List Stream → ℕ
over_in i [] = 0
over_in zero (x ∷ xs) = over (is_over x.echo.place)
over_in (suc i) (x ∷ xs) = over_in i xs

-- The main task does not end.
abbrev pub over_at : ℕ → List Stream → ℕ
over_at zero xs = 0
over_at (suc i) xs = over_in i xs

abbrev pub places : ℕ → System → ℕ
places i s = count i s.queue + stored (s.reactor.io_wakers i) + over_at i s.streams

pub count-append : (i : ℕ) (xs ys : List ℕ) → count i (xs ++ ys) ≡ count i xs + count i ys
count-append i [] ys = omega arith
count-append i (x ∷ xs) ys = omega (arith, count-append i xs ys)

-- A waker is under its own task's token.
abbrev pub Own : Reactor ℕ → Type 0
Own r = (i w : ℕ) → r.io_wakers i ≡ some w → w ≡ i

true≢false : true ≡ false → ⊥
true≢false e = cc

dispatch-Own : (t : ℕ) (r : Reactor ℕ) → Own r → Own (dispatch t r).0
unfolding dispatch
dispatch-Own t r own i w e = ground (arith, own i w)

-- An event moves a task from the reactor to the queue.
dispatch_places :
    (t : ℕ) (r : Reactor ℕ) (woken : List ℕ) (i : ℕ)
    → Own r
    → count i (append_waker woken (dispatch t r).1) + stored ((dispatch t r).0.io_wakers i)
      ≡ count i woken + stored (r.io_wakers i)
unfolding dispatch append_waker
dispatch_places t r woken i own = elim (Bool-cases (t == notify_token)) [
  | inl e ↦ rw e refl
  | inr e ↦ rw e (by_waker (r.io_wakers t) refl)
]
  where
    by_waker :
        (o : Option ℕ)
        → r.io_wakers t ≡ o
        → count i (append_waker woken o) + stored (if i == t then none else r.io_wakers i)
          ≡ count i woken + stored (r.io_wakers i)
    by_waker none e = ground arith
    by_waker (some w) e =
        let same : w ≡ t = own t w e in ground (arith, count-append i woken (w ∷ []))

pub turn_places :
    (events : List ℕ) (r : Reactor ℕ) (woken : List ℕ) (i : ℕ)
    → Own r
    → count i (Reactor.turn events r woken).1 + stored ((Reactor.turn events r woken).0.io_wakers i)
      ≡ count i woken + stored (r.io_wakers i)
unfolding Reactor.turn
turn_places [] r woken i own = refl
turn_places (t ∷ ts) r woken i own =
    turn_places ts (dispatch t r).0 (append_waker woken (dispatch t r).1) i (dispatch-Own t r own)
    ∙ dispatch_places t r woken i own

pub turn-Own :
    (events : List ℕ) (r : Reactor ℕ) (woken : List ℕ) → Own r → Own (Reactor.turn events r woken).0
unfolding Reactor.turn
turn-Own [] r woken own = own
turn-Own (t ∷ ts) r woken own =
    turn-Own ts (dispatch t r).0 (append_waker woken (dispatch t r).1) (dispatch-Own t r own)

pub turn_next :
    (events : List ℕ) (r : Reactor ℕ) (woken : List ℕ)
    → (Reactor.turn events r woken).0.next_token ≡ r.next_token
unfolding Reactor.turn dispatch
turn_next [] r woken = refl
turn_next (t ∷ ts) r woken =
    turn_next ts _ _
    ∙ (elim (Bool-cases (t == notify_token)) [ inl e ↦ rw e refl | inr e ↦ rw e refl ])
