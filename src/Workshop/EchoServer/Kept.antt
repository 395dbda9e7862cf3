-- ===== src/Workshop/EchoServer/Kept.antt =====
-- What each step of the echo server does to the places of its tasks.
use tokioconf_2026_workshop.Base.{
  ℕ, zero, suc, ◌+◌, ◌≡◌, refl, sym, ap, subst, ◌∙◌, inl, inr, true, false, Option, none, some,
  List, [], ◌∷◌, arith, Bytes, if◌then◌else◌, length, ltb, ◌==◌, Bool-cases,
}
use tokioconf_2026_workshop.Workshop.Echo.{is_over}
use tokioconf_2026_workshop.Workshop.EchoServer.{
  Accepted, accepted, would_block, failed, Stream, System, Answers, stream, put, start, spawn, wait,
  accept_each, bind, poll_server, polled, poll_stream, poll_task, send, Step, poll, turn, sends,
  Reach, here, next,
}
use tokioconf_2026_workshop.Workshop.EchoServer.Counted.{
  count, over, over_in, over_at, turn_places, turn-Own, turn_next,
}
use tokioconf_2026_workshop.Workshop.EchoServer.Polled.{Ends, poll_echo-Ends}
use tokioconf_2026_workshop.Workshop.Reactor
use tokioconf_2026_workshop.Workshop.Reactor.{Reactor, set_waker, register}
use tokioconf_2026_workshop.Workshop.EchoServer.Placed.{
  Placed, Numbered, unbound, nobody, only, take-Placed, vacant, wait-Placed, spawn-Placed,
}

bind-Placed :
    (held : ℕ → ℕ) (s : System)
    → s.listener ≡ none
    → Placed held s
    → ((bind s).0 ≡ 0) × Placed held (bind s).1 × (unbound (bind s).1.listener ≡ 0)
unfolding bind register
bind-Placed held s e v =
    let none_yet : length s.streams ≡ 0 = ap length (v.empty e) in
    let at_zero : s.reactor.next_token ≡ 0 = omega (arith, v.tokens, ap unbound e, none_yet) in
    (
      at_zero,
      record {
        once = v.once;
        own = v.own;
        tokens = omega (arith, at_zero, none_yet);
        empty = λ f. absurd cc;
        first = λ token f. sym (some_ℕ f) ∙ at_zero;
        numbered = v.numbered;
      },
      refl,
    )
  where
    some_ℕ : {a b : ℕ} → some a ≡ some b → a ≡ b
    some_ℕ f = cc

some_system : {s t : System} → some s ≡ some t → s ≡ t
some_system e = cc

accept_each-Placed :
    (accepts : List Accepted) (s t : System)
    → unbound s.listener ≡ 0
    → Placed (only 0) s
    → accept_each 0 accepts s ≡ some t
    → Placed nobody t
unfolding accept_each wait spawn
accept_each-Placed [] s t known v e = subst (Placed nobody) (some_system e) (wait-Placed 0 s v)
accept_each-Placed (accepted input ∷ later) s t known v e =
    accept_each-Placed later (spawn input s) t known (spawn-Placed input s known v) e
accept_each-Placed (would_block ∷ later) s t known v e =
    subst (Placed nobody) (some_system e) (wait-Placed 0 s v)
accept_each-Placed (failed ∷ later) s t known v e = absurd cc

server-Placed :
    (a : Answers) (o : Option ℕ) (s t : System)
    → s.listener ≡ o
    → Placed (only 0) s
    → poll_server a o s ≡ some t
    → Placed nobody t
unfolding poll_server
server-Placed a (some token) s t e v f =
    let zero_token : token ≡ 0 = v.first token e in
    accept_each-Placed a.accepts s t (ap unbound e) v (rw zero_token at f)
server-Placed a none s t e v f = elim (Bool-cases a.binds) [
  | inl b ↦
      let (at_zero, v', known) = bind-Placed (only 0) s e v in
      accept_each-Placed a.accepts (bind s).1 t known v'
        (subst (λ k. accept_each k a.accepts (bind s).1 ≡ some t) at_zero (rw b at f))
  | inr b ↦ absurd (none≢some (rw b at f))
]
  where
    none≢some : none ≡ some t → ⊥
    none≢some p = cc

length-put : (xs : List Stream) (i : ℕ) (y : Stream) → length (put xs i y) ≡ length xs
length-put [] i y = refl
length-put (x ∷ xs) zero y = refl
length-put (x ∷ xs) (suc i) y = ap suc (length-put xs i y)

over_in-put :
    (i j : ℕ) (x y : Stream) (xs : List Stream)
    → stream xs i ≡ some x
    → over_in j (put xs i y) ≡ (if j == i then over (is_over y.echo.place) else over_in j xs)
over_in-put i j x y [] e = absurd cc
over_in-put zero zero x y (z ∷ xs) e = refl
over_in-put zero (suc j) x y (z ∷ xs) e = ground arith
over_in-put (suc i) zero x y (z ∷ xs) e = ground arith
over_in-put (suc i) (suc j) x y (z ∷ xs) e = ground (arith, over_in-put i j x y xs e)

stream-put :
    (i j : ℕ) (x y : Stream) (xs : List Stream)
    → stream xs i ≡ some x
    → stream (put xs i y) j ≡ (if j == i then some y else stream xs j)
stream-put i j x y [] e = absurd cc
stream-put zero zero x y (z ∷ xs) e = refl
stream-put zero (suc j) x y (z ∷ xs) e = ground arith
stream-put (suc i) zero x y (z ∷ xs) e = ground arith
stream-put (suc i) (suc j) x y (z ∷ xs) e = ground (arith, stream-put i j x y xs e)

put-Numbered :
    (i : ℕ) (x y : Stream) (xs : List Stream)
    → stream xs i ≡ some x
    → y.token ≡ x.token
    → Numbered xs
    → Numbered (put xs i y)
put-Numbered i x y xs e same h j z f = elim (Bool-cases (j == i)) [
  | inl q ↦ own q (rw (stream-put i j x y xs e, q) at f)
  | inr q ↦ h j z (rw (stream-put i j x y xs e, q) at f)
]
  where
    some_token : some y ≡ some z → z.token ≡ y.token
    some_token p = ap (λ (o : Option Stream). elim o [ none ↦ 0 | some w ↦ w.token ]) (sym p)

    own : (j == i) ≡ true → some y ≡ some z → z.token ≡ suc j
    own q p =
        let here_too : j ≡ i = ground arith in some_token p ∙ same ∙ h i x e ∙ ap suc (sym here_too)

over_at-put :
    (i j : ℕ) (x y : Stream) (xs : List Stream)
    → stream xs i ≡ some x
    → over_at j (put xs i y) ≡ (if j == suc i then over (is_over y.echo.place) else over_at j xs)
over_at-put i zero x y xs e = ground arith
over_at-put i (suc j) x y xs e = ground (arith, over_in-put i j x y xs e)

over_in-stream :
    (i : ℕ) (x : Stream) (xs : List Stream)
    → stream xs i ≡ some x
    → over_in i xs ≡ over (is_over x.echo.place)
over_in-stream i x [] e = absurd cc
over_in-stream zero x (z ∷ xs) e =
    ap (λ (o : Option Stream). elim o [ none ↦ 0 | some w ↦ over (is_over w.echo.place) ]) e
over_in-stream (suc i) x (z ∷ xs) e = over_in-stream i x xs e

-- A stream's task moves on.
put-Placed :
    (held held' : ℕ → ℕ) (i : ℕ) (x y : Stream) (s : System)
    → stream s.streams i ≡ some x
    → y.token ≡ x.token
    → ((j : ℕ) → over_at j (put s.streams i y) + held' j ≡ over_at j s.streams + held j)
    → Placed held s
    → Placed held' (record s { streams = put s.streams i y })
put-Placed held held' i x y s e same moved v = record {
  once = λ j. omega (arith, v.once j, moved j, ltb_same j);
  own = v.own;
  tokens = omega (arith, v.tokens, length-put s.streams i y);
  empty = λ f. absurd (nothing_there (v.empty f));
  first = v.first;
  numbered = put-Numbered i x y s.streams e same v.numbered;
}
  where
    ltb_same :
        (j : ℕ)
        → ◌≡◌ {A = ℕ}
            (if ltb j (suc (length (put s.streams i y))) then 1 else 0)
            (if ltb j (suc (length s.streams)) then 1 else 0)
    ltb_same j = rw (length-put s.streams i y)

    nothing_there : s.streams ≡ [] → ⊥
    nothing_there f = let gone : stream [] i ≡ some x = ap (λ l. stream l i) (sym f) ∙ e in cc

-- The task of a stream is polled: over, or with its waker stored.
stream-Placed :
    (a : Answers) (i : ℕ) (o : Option Stream) (s t : System)
    → stream s.streams i ≡ o
    → Placed (only (suc i)) s
    → poll_stream a i o s ≡ some t
    → Placed nobody t
unfolding poll_stream
stream-Placed a i none s t e v f = absurd cc
stream-Placed a i (some x) s t e v f = elim (Bool-cases (is_over x.echo.place)) [
  | inl g ↦ absurd (none≢some (rw g at f))
  | inr g ↦ subst (Placed nobody) (some_system (rw g at f)) (
      by_end (
        poll_echo-Ends x.token (suc i) a.calls
          (record x.echo { reactor = s.reactor; is_pending = false }) refl g))
]
  where
    none≢some : none ≡ some t → ⊥
    none≢some p = cc

    y : Stream
    y = polled (suc i) a.calls x s.reactor

    after : System
    after = record s { streams = put s.streams i y; reactor = y.echo.reactor }

    vacant_here : over_at (suc i) s.streams ≡ 0
    vacant_here = omega (arith, vacant (suc i) s v)

    by_end :
        Ends x.token (suc i) (record x.echo { reactor = s.reactor; is_pending = false }) y.echo
        → Placed nobody after
    by_end (inl (g, r)) = rw r (
        put-Placed (only (suc i)) nobody i x y s e refl
          (λ j. ground (arith, over_at-put i j x y s.streams e, g, vacant_here)) v)
    by_end (inr (g, r)) = rw r (
        subst
          (λ k.
            Placed nobody
              (record s { streams = put s.streams i y; reactor = set_waker k (suc i) s.reactor }))
          (sym (v.numbered i x e))
          (wait-Placed (suc i) (record s { streams = put s.streams i y })
            (put-Placed (only (suc i)) (only (suc i)) i x y s e refl
              (λ j. ground (arith, over_at-put i j x y s.streams e, g, vacant_here)) v)))

task-Placed :
    (a : Answers) (i : ℕ) (s t : System)
    → Placed (only i) s
    → poll_task a i s ≡ some t
    → Placed nobody t
unfolding poll_task
task-Placed a zero s t v f = server-Placed a s.listener s t refl v f
task-Placed a (suc i) s t v f = stream-Placed a i (stream s.streams i) s t refl v f

turned-Placed :
    (events : List ℕ) (s : System)
    → s.queue ≡ []
    → Placed nobody s
    → Placed nobody (record s {
      queue = (Reactor.turn events s.reactor []).1;
      reactor = (Reactor.turn events s.reactor []).0;
    })
turned-Placed events s e v = record {
  once = λ j. omega (arith, v.once j, ap (count j) e, turn_places events s.reactor [] j v.own);
  own = turn-Own events s.reactor [] v.own;
  tokens = omega (arith, v.tokens, turn_next events s.reactor []);
  empty = v.empty;
  first = v.first;
  numbered = v.numbered;
}

sent-Placed :
    (i : ℕ) (x : Stream) (input : Bytes) (s : System)
    → stream s.streams i ≡ some x
    → Placed nobody s
    → Placed nobody (record s { streams = put s.streams i (send input x) })
unfolding send
sent-Placed i x input s e v =
    put-Placed nobody nobody i x (send input x) s e refl
      (λ j.
        ground
          (arith, over_at-put i j x (send input x) s.streams e, over_in-stream i x s.streams e))
      v

Step-Placed : {s t : System} → Placed nobody s → Step s t → Placed nobody t
Step-Placed {s} {t} v (poll i rest a _ e f) =
    task-Placed a i (record s { queue = rest }) t (take-Placed s i rest e v) f
Step-Placed {s} v (turn events e) = turned-Placed events s e v
Step-Placed {s} v (sends i x input e) = sent-Placed i x input s e v

pub Reach-Placed : {s : System} → Reach s → Placed nobody s
unfolding start Reactor.new
Reach-Placed here = record {
  once = λ j. ground arith;
  own = λ i w e. cc;
  tokens = omega arith;
  empty = λ e. refl;
  first = λ t e. cc;
  numbered = λ i x e. cc;
}
Reach-Placed (next r st) = Step-Placed (Reach-Placed r) st
