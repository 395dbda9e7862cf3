-- ===== src/Client/Blocking/Iterated.antt =====
-- The iterator of the blocking subscriber and the stream of the asynchronous one.
use tokioconf_2026_workshop.Base.{
  ℕ, zero, suc, ◌-◌, ◌≡◌, refl, sym, ap, ◌∙◌, Option, none, some, List, ◌∷◌, arith, Bytes, Outcome,
  ok, err, panic, out_of_fuel, length,
}
use tokioconf_2026_workshop.Client.{Call, returned, broken, pending}
use tokioconf_2026_workshop.Client.Subscriber
use tokioconf_2026_workshop.Client.Subscriber.{
  Received, client_subscribe, client_unsubscribe, Unsubscribing, into_stream, message_of,
  message_from,
}
use tokioconf_2026_workshop.Client.Blocking.{
  transpose, block_on, next_message, next, into_iter, resumed,
}
use tokioconf_2026_workshop.Connection.{Connection, Arrival, Progress, done, waiting, read_frame}
use tokioconf_2026_workshop.Frame.{Message}
use tokioconf_2026_workshop.Std.Platform.{Platform}

-- The call did not end with an error.
abbrev pub WithoutError : {A : Type 0} → Call A → Type 0
WithoutError (returned (err e) c later) = ⊥
WithoutError (returned (ok a) c later) = Unit
WithoutError (returned panic c later) = Unit
WithoutError (returned out_of_fuel c later) = Unit
WithoutError (broken (err e)) = ⊥
WithoutError (broken (ok _)) = Unit
WithoutError (broken panic) = Unit
WithoutError (broken out_of_fuel) = Unit
WithoutError (pending c) = Unit

module _ (pf : Platform) where
  more : Received → List Received × Call (Unit {0}) → List Received × Call (Unit {0})
  more m (ms, r) = (m ∷ ms, r)

  then_item :
      Received
      → List (Outcome Message Received) × Call (Unit {0})
      → List (Outcome Message Received) × Call (Unit {0})
  then_item m (items, r) = (ok m ∷ items, r)

  resumed-more :
      (debug : Bytes → Bytes) (n : ℕ) (m : Received) (r : List Received × Call (Unit {0}))
      → resumed pf debug (λ ms. suc n - length ms - 1) (more m r)
        ≡ then_item m (resumed pf debug (λ ms. n - length ms - 1) r)
  unfolding resumed more then_item
  resumed-more debug n m (ms, returned (err e) c later) =
      let same : suc n - suc (length ms) - 1 ≡ n - length ms - 1 = omega arith in rw same
  resumed-more debug n m (ms, returned (ok _) c later) = refl
  resumed-more debug n m (ms, returned panic c later) = refl
  resumed-more debug n m (ms, returned out_of_fuel c later) = refl
  resumed-more debug n m (ms, broken r) = refl
  resumed-more debug n m (ms, pending c) = refl

  -- One round of both.
  abbrev Agrees : (Bytes → Bytes) → ℕ → Connection → List Arrival → Type 0
  Agrees debug n c later =
      into_iter pf debug n c later
      ≡ resumed pf debug (λ ms. n - length ms - 1) (into_stream pf debug n c later)

  step-Agrees :
      (debug : Bytes → Bytes) (n : ℕ) (c : Connection) (later : List Arrival)
      (x : Call (Option Received))
      → Subscriber.next_message pf debug c later ≡ x
      → ((c' : Connection) (later' : List Arrival) → Agrees debug n c' later')
      → Agrees debug (suc n) c later
  unfolding into_iter into_stream resumed more then_item
  step-Agrees debug n c later (returned (ok (some m)) c' later') e ih =
      rw (into_iter, into_stream, e)
        (ap (then_item m) (ih c' later')
          ∙ sym (resumed-more debug n m (into_stream pf debug n c' later')))
  step-Agrees debug n c later (returned (ok none) c' later') e ih = rw (into_iter, into_stream, e)
  step-Agrees debug n c later (returned (err m) c' later') e ih =
      let same : suc n - 0 - 1 ≡ n = omega arith in rw (into_iter, into_stream, e, same)
  step-Agrees debug n c later (returned panic c' later') e ih = rw (into_iter, into_stream, e)
  step-Agrees debug n c later (returned out_of_fuel c' later') e ih = rw (into_iter, into_stream, e)
  step-Agrees debug n c later (broken r) e ih = rw (into_iter, into_stream, e)
  step-Agrees debug n c later (pending c') e ih = rw (into_iter, into_stream, e)

  item_WithoutError :
      (o : Outcome Message (Option Received)) (c : Connection) (later : List Arrival)
      → WithoutError (transpose (returned o c later))
  unfolding transpose
  item_WithoutError (ok none) c later = tt
  item_WithoutError (ok (some m)) c later = tt
  item_WithoutError (err e) c later = tt
  item_WithoutError panic c later = tt
  item_WithoutError out_of_fuel c later = tt

  next_WithoutError :
      (debug : Bytes → Bytes) (p : Progress) → WithoutError (transpose (message_from pf debug p))
  unfolding message_from transpose
  next_WithoutError debug (done (ok (some f, c)) later) =
      item_WithoutError (message_of debug f) c later
  next_WithoutError debug (done (ok (none, c)) later) = tt
  next_WithoutError debug (done (err (m, c)) later) = tt
  next_WithoutError debug (done panic later) = tt
  next_WithoutError debug (done out_of_fuel later) = tt
  next_WithoutError debug (waiting c) = tt

  step-WithoutError :
      (debug : Bytes → Bytes) (n : ℕ) (c : Connection) (later : List Arrival)
      (x : Call (Option (Outcome Message Received)))
      → next pf debug c later ≡ x
      → WithoutError x
      → ((c' : Connection) (later' : List Arrival)
          → WithoutError (into_iter pf debug n c' later').1)
      → WithoutError (into_iter pf debug (suc n) c later).1
  unfolding into_iter
  step-WithoutError debug n c later (returned (ok (some item)) c' later') e h ih =
      rw (into_iter, e) (ih c' later')
  step-WithoutError debug n c later (returned (ok none) c' later') e h ih = rw (into_iter, e) tt
  step-WithoutError debug n c later (returned (err m) c' later') e h ih = absurd h
  step-WithoutError debug n c later (returned panic c' later') e h ih = rw (into_iter, e) tt
  step-WithoutError debug n c later (returned out_of_fuel c' later') e h ih = rw (into_iter, e) tt
  step-WithoutError debug n c later (broken (ok _)) e h ih = rw (into_iter, e) tt
  step-WithoutError debug n c later (broken (err m)) e h ih = absurd h
  step-WithoutError debug n c later (broken panic) e h ih = rw (into_iter, e) tt
  step-WithoutError debug n c later (broken out_of_fuel) e h ih = rw (into_iter, e) tt
  step-WithoutError debug n c later (pending c') e h ih = rw (into_iter, e) tt

  into_iter-WithoutError :
      (debug : Bytes → Bytes) (n : ℕ) (c : Connection) (later : List Arrival)
      → WithoutError (into_iter pf debug n c later).1
  unfolding into_iter next next_message Subscriber.next_message block_on
  into_iter-WithoutError debug zero c later = tt
  into_iter-WithoutError debug (suc n) c later =
      step-WithoutError debug n c later (next pf debug c later) refl
        (next_WithoutError debug (read_frame pf c later)) (into_iter-WithoutError debug n)

  Agrees-all :
      (debug : Bytes → Bytes) (n : ℕ) (c : Connection) (later : List Arrival)
      → Agrees debug n c later
  unfolding into_iter into_stream resumed
  Agrees-all debug zero c later = refl
  Agrees-all debug (suc n) c later =
      step-Agrees debug n c later (Subscriber.next_message pf debug c later) refl
        (Agrees-all debug n)

  -- A loop of `n` rounds over `into_iter` sees the messages that the stream of `into_stream` yields
  -- in `n` polls, in order. Where the stream ends with an error, the iterator has that error as an item
  -- and goes on with the rounds that are left; where the stream ends, is pending or panics, so does the
  -- iterator. No error, of the connection or of a frame, ends the loop.
  pub into_iter-into_stream :
      (debug : Bytes → Bytes) (n : ℕ) (c : Connection) (later : List Arrival)
      → (into_iter pf debug n c later
          ≡ resumed pf debug (λ ms. n - length ms - 1) (into_stream pf debug n c later))
        × WithoutError (into_iter pf debug n c later).1
  into_iter-into_stream debug n c later =
      (Agrees-all debug n c later, into_iter-WithoutError debug n c later)
