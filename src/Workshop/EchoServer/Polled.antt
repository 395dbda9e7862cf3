-- ===== src/Workshop/EchoServer/Polled.antt =====
-- How one poll of `echo` ends: over, or pending with its waker stored.
use tokioconf_2026_workshop.Base.{
  ℕ, ◌≡◌, ◌⊎◌, refl, ap, ◌∙◌, inl, inr, true, false, List, [], ◌∷◌, arith, Bytes, ◌==◌, Bool-cases,
}
use tokioconf_2026_workshop.Workshop.Echo.{
  Echo, Answer, moved, would_block, failed, Place, reading, writing, returned_ok, returned_err,
  is_over, poll_echo, attempt, on_read, on_write, wait, write_head,
}
use tokioconf_2026_workshop.Workshop.Reactor.{set_waker}

module _ (token w : ℕ) where
  -- A call of the socket leaves the task pending, with its waker stored, or the reactor alone.
  abbrev Called : Echo ℕ → Echo ℕ → Type 0
  Called x y =
      ((y.is_pending ≡ true)
        × (is_over y.place ≡ false)
        × (y.reactor ≡ set_waker token w x.reactor))
      ⊎ ((y.is_pending ≡ false) × (y.reactor ≡ x.reactor))

  head_goes_on : (buf : Bytes) (pos : ℕ) → is_over (write_head buf pos) ≡ false
  unfolding write_head is_over
  head_goes_on buf pos = ground arith

  attempt-Called :
      (a : Answer) (p : Place) (x : Echo ℕ)
      → x.place ≡ p
      → x.is_pending ≡ false
      → is_over p ≡ false
      → Called x (attempt token w a p x)
  unfolding attempt on_read on_write wait is_over
  attempt-Called (moved n) reading x e h g = elim (Bool-cases (n == 0)) [
    | inl z ↦ rw z (inr (h, refl))
    | inr z ↦ rw z (inr (h, refl))
  ]
  attempt-Called would_block reading x e h g = inl (refl, rw e refl, refl)
  attempt-Called failed reading x e h g = inr (h, refl)
  attempt-Called (moved n) (writing buf pos) x e h g = inr (h, refl)
  attempt-Called would_block (writing buf pos) x e h g = inl (refl, rw e refl, refl)
  attempt-Called failed (writing buf pos) x e h g = inr (h, refl)
  attempt-Called a returned_ok x e h g = absurd cc
  attempt-Called a returned_err x e h g = absurd cc

  -- A poll ends with the task over and the reactor as it was, or with its waker stored.
  abbrev pub Ends : Echo ℕ → Echo ℕ → Type 0
  Ends x y =
      ((is_over y.place ≡ true) × (y.reactor ≡ x.reactor))
      ⊎ ((is_over y.place ≡ false) × (y.reactor ≡ set_waker token w x.reactor))

  Ends-from : (x y z : Echo ℕ) → y.reactor ≡ x.reactor → Ends y z → Ends x z
  Ends-from x y z e (inl (o, r)) = inl (o, r ∙ e)
  Ends-from x y z e (inr (o, r)) = inr (o, r ∙ ap (set_waker token w) e)

  pub poll_echo-Ends :
      (answers : List Answer) (x : Echo ℕ)
      → x.is_pending ≡ false
      → is_over x.place ≡ false
      → Ends x (poll_echo token w answers x)
  unfolding poll_echo wait
  poll_echo-Ends [] x h g = inr (g, refl)
  poll_echo-Ends (a ∷ later) x h g =
      by_call (attempt-Called a x.place x refl h g)
        (poll_echo-Ends later (attempt token w a x.place x))
    where
      y : Echo ℕ
      y = attempt token w a x.place x

      by_call :
          Called x y
          → (y.is_pending ≡ false → is_over y.place ≡ false → Ends y (poll_echo token w later y))
          → Ends x (poll_echo token w (a ∷ later) x)
      by_call (inl (p, o, r)) ih = rw p (inr (o, r))
      by_call (inr (p, r)) ih = elim (Bool-cases (is_over y.place)) [
        | inl o ↦ rw (p, o) (inl (o, r))
        | inr o ↦ rw (p, o) (Ends-from x y (poll_echo token w later y) r (ih p o))
      ]
