-- ===== src/Workshop/EchoServer/Placed.antt =====
-- Every task of the echo server is in exactly one place: in the queue, once; or waiting, with its
-- waker under its socket's token; or over.
use tokioconf_2026_workshop.Base.{
  ℕ, zero, suc, ◌+◌, ◌≡◌, refl, sym, ap, ◌∙◌, Option, none, some, List, [], ◌∷◌, ◌++◌, arith, Bytes,
  if◌then◌else◌, length, length-append, ltb, ◌==◌,
}
use tokioconf_2026_workshop.Workshop.Echo.{is_over}
use tokioconf_2026_workshop.Workshop.EchoServer.{Stream, System, stream, new_stream, spawn}
use tokioconf_2026_workshop.Workshop.EchoServer.Counted.{
  count, over_in, over_at, places, count-append, Own,
}
use tokioconf_2026_workshop.Workshop.Reactor.{Reactor, set_waker, register}

-- The tokens that are not given away yet before the listener is bound.
abbrev pub unbound : Option ℕ → ℕ
unbound none = 1
unbound (some token) = 0

-- The stream at place `i` has the token `i + 1`.
abbrev pub Numbered : List Stream → Type 0
Numbered xs = (i : ℕ) (x : Stream) → stream xs i ≡ some x → x.token ≡ suc i

-- `held i` is 1 for the task that is being polled.
pub record Placed (held : ℕ → ℕ) (s : System) : Type 0 where
  pub once : (i : ℕ) → places i s + held i ≡ (if ltb i (suc (length s.streams)) then 1 else 0)
  pub own : Own s.reactor
  pub tokens : s.reactor.next_token + unbound s.listener ≡ suc (length s.streams)
  pub empty : s.listener ≡ none → s.streams ≡ []
  pub first : (token : ℕ) → s.listener ≡ some token → token ≡ 0
  pub numbered : Numbered s.streams

abbrev pub nobody : ℕ → ℕ
nobody i = 0

abbrev pub only : ℕ → ℕ → ℕ
only j i = if i == j then 1 else 0

-- The first task of the queue is taken.
pub take-Placed :
    (s : System) (i : ℕ) (rest : List ℕ)
    → s.queue ≡ i ∷ rest
    → Placed nobody s
    → Placed (only i) (record s { queue = rest })
take-Placed s i rest e v = record {
  once = λ j. omega (arith, v.once j, ap (count j) e);
  own = v.own;
  tokens = v.tokens;
  empty = v.empty;
  first = v.first;
  numbered = v.numbered;
}

set_waker-Own : (i : ℕ) (r : Reactor ℕ) → Own r → Own (set_waker i i r)
unfolding set_waker
set_waker-Own i r own j w e = ground (arith, own j w)

pub vacant : (i : ℕ) (s : System) → Placed (only i) s → places i s ≡ 0
vacant i s v = ground (arith, v.once i)

-- A task that is polled and not over ends its poll with its waker stored.
pub wait-Placed :
    (i : ℕ) (s : System)
    → Placed (only i) s
    → Placed nobody (record s { reactor = set_waker i i s.reactor })
unfolding set_waker
wait-Placed i s v = record {
  once = λ j. ground (arith, v.once j, vacant i s v);
  own = set_waker-Own i s.reactor v.own;
  tokens = v.tokens;
  empty = v.empty;
  first = v.first;
  numbered = v.numbered;
}

over_in-spawned :
    (i token : ℕ) (input : Bytes) (r : Reactor ℕ) (xs : List Stream)
    → over_in i (xs ++ new_stream token input r ∷ []) ≡ over_in i xs
unfolding new_stream is_over
over_in-spawned zero token input r [] = refl
over_in-spawned (suc i) token input r [] = refl
over_in-spawned zero token input r (x ∷ xs) = refl
over_in-spawned (suc i) token input r (x ∷ xs) = over_in-spawned i token input r xs

over_at-spawned :
    (i token : ℕ) (input : Bytes) (r : Reactor ℕ) (xs : List Stream)
    → over_at i (xs ++ new_stream token input r ∷ []) ≡ over_at i xs
over_at-spawned zero token input r xs = refl
over_at-spawned (suc i) token input r xs = over_in-spawned i token input r xs

numbered_from :
    (n : ℕ) (xs : List Stream) (y : Stream)
    → ((i : ℕ) (x : Stream) → stream xs i ≡ some x → x.token ≡ suc (n + i))
    → y.token ≡ suc (n + length xs)
    → (i : ℕ) (x : Stream) → stream (xs ++ y ∷ []) i ≡ some x
    → x.token ≡ suc (n + i)
numbered_from n [] y h e zero x f = ap (λ (o : Option Stream). token_of o) (sym f) ∙ e
  where
    token_of : Option Stream → ℕ
    token_of none = 0
    token_of (some x) = x.token
numbered_from n [] y h e (suc i) x f = absurd cc
numbered_from n (z ∷ xs) y h e zero x f = h zero x f
numbered_from n (z ∷ xs) y h e (suc i) x f =
    numbered_from (suc n) xs y (λ j w g. omega (arith, h (suc j) w g)) (omega arith) i x f
    ∙ (omega arith)

pub spawn-Placed :
    (input : Bytes) (s : System)
    → unbound s.listener ≡ 0
    → Placed (only 0) s
    → Placed (only 0) (spawn input s)
unfolding spawn register new_stream
spawn-Placed input s known v = record {
  once = λ i. ground (
    arith,
    v.once i,
    count-append i s.queue (suc (length s.streams) ∷ []),
    over_at-spawned i (s.reactor.next_token) input (register s.reactor).1 s.streams,
    length-append s.streams (new_stream s.reactor.next_token input (register s.reactor).1 ∷ []),
  );
  own = v.own;
  tokens = omega (
    arith,
    v.tokens,
    length-append s.streams (new_stream s.reactor.next_token input (register s.reactor).1 ∷ []),
  );
  empty = λ e. absurd (omega (arith, known, ap unbound e));
  first = v.first;
  numbered = λ i x f.
      numbered_from 0 s.streams _ (λ j w g. omega (arith, v.numbered j w g))
        (omega (arith, v.tokens, known)) i x f
      ∙ omega arith;
}
