-- ===== src/Bench/Run/Hangs.antt =====
-- The benchmark with more connections than requests.
use tokioconf_2026_workshop.Base.{
  ℕ, zero, suc, ◌+◌, ◌/◌, ◌<◌, ◌≡◌, refl, sym, ap, subst, inl, inr, true, false, Option, none, some,
  List, [], ◌∷◌, append-nil, arith, Bytes, ltb, ◌==◌, ok, length, All, Bool-cases,
}
use tokioconf_2026_workshop.Bench.{Phase}
use tokioconf_2026_workshop.Bench.Loop.{Conn, Ready, new_conn, batch_size_of, is_done, on_event}
use tokioconf_2026_workshop.Bench.Run.{
  Run, connect, start, requests_per_conn, conn, put, dispatch, handle_events, run_phase,
}

abbrev pub Done : Conn → Type 0
Done c = is_done c ≡ true

connect-Done :
    (phase : Phase) (clock : ℕ → ℕ) (pipeline n : ℕ) (value : Bytes) (i : ℕ)
    → All Done (connect phase clock pipeline 0 n value i)
unfolding connect is_done new_conn batch_size_of
connect-Done phase clock pipeline zero value i = tt
connect-Done phase clock pipeline (suc n) value i =
    (ground arith, connect-Done phase clock pipeline n value (suc i))

put-same : (cs : List Conn) (i : ℕ) (c : Conn) → conn cs i ≡ some c → put cs i c ≡ cs
put-same [] i c e = absurd cc
put-same (d ∷ cs) zero c e = ap (λ a. a ∷ cs) (some_conn (sym e))
  where
    some_conn : {a b : Conn} → some a ≡ some b → a ≡ b
    some_conn p = cc
put-same (d ∷ cs) (suc i) c e = ap (λ l. d ∷ l) (put-same cs i c e)

conn-Done : (cs : List Conn) (i : ℕ) (c : Conn) → All Done cs → conn cs i ≡ some c → Done c
conn-Done [] i c h e = absurd cc
conn-Done (d ∷ cs) zero c (h, hs) e = subst Done (some_conn e) h
  where
    some_conn : {a b : Conn} → some a ≡ some b → a ≡ b
    some_conn p = cc
conn-Done (d ∷ cs) (suc i) c (h, hs) e = conn-Done cs i c hs e

pub length-connect :
    (phase : Phase) (clock : ℕ → ℕ) (pipeline requests n : ℕ) (value : Bytes) (i : ℕ)
    → length (connect phase clock pipeline requests n value i) ≡ n
unfolding connect
length-connect phase clock pipeline requests zero value i = refl
length-connect phase clock pipeline requests (suc n) value i =
    ap suc (length-connect phase clock pipeline requests n value (suc i))

-- An event of a connection that is done is skipped.
skipped :
    (i : ℕ) (r : Ready) (o : Option Conn) (c : Conn) (b : Run)
    → conn b.conns i ≡ o
    → o ≡ some c
    → All Done b.conns
    → dispatch i r o b ≡ ok b
unfolding dispatch on_event
skipped i r none c b e f h = absurd cc
skipped i r (some c') c b e f h =
    let done : is_done c' ≡ true = conn-Done b.conns i c' h e in
    let zero_more : b.done_count + 0 ≡ b.done_count = omega arith in
    rw (done, put-same b.conns i c' e, append-nil b.latencies, zero_more) refl

there_is : (cs : List Conn) (i : ℕ) → i < length cs → (c : Conn) × (conn cs i ≡ some c)
there_is [] i h = absurd (omega arith)
there_is (c ∷ cs) zero h = (c, refl)
there_is (c ∷ cs) (suc i) h = there_is cs i (omega arith)

-- The event is for a connection of the run.
abbrev pub Known : ℕ → ℕ × Ready → Type 0
Known n e = e.0 < n

handle_events-Done :
    (events : List (ℕ × Ready)) (b : Run)
    → All (Known (length b.conns)) events
    → All Done b.conns
    → handle_events events b ≡ ok b
unfolding handle_events
handle_events-Done [] b hs h = refl
handle_events-Done ((i, r) ∷ later) b (there, hs) h =
    let (c, found) = there_is b.conns i there in
    rw (skipped i r (conn b.conns i) c b refl found h) (handle_events-Done later b hs h)

run_phase-Done :
    (num_conns : ℕ) (polls : List (List (ℕ × Ready))) (b : Run)
    → All (All (Known (length b.conns))) polls
    → All Done b.conns
    → run_phase num_conns polls b ≡ ok b
unfolding run_phase
run_phase-Done num_conns [] b hs h = refl
run_phase-Done num_conns (events ∷ polls) b (known, hs) h =
    elim (Bool-cases (ltb b.done_count num_conns)) [
      | inl e ↦ rw (e, handle_events-Done events b known h) (run_phase-Done num_conns polls b hs h)
      | inr e ↦ rw e refl
    ]

-- Of fewer requests than connections, each connection gets none.
none_each :
    (num_requests connections : ℕ)
    → num_requests < connections
    → requests_per_conn num_requests connections ≡ ok 0
unfolding requests_per_conn
none_each num_requests connections few =
    let there : (connections == 0) ≡ false = ground arith in
    let nothing : num_requests / connections ≡ 0 = grind arith in rw (there, nothing) refl

-- With fewer requests than connections, each connection is given no request to make. Whatever events
-- of its connections come, the loop counts no connection as done and no response, and waits for all
-- of them, which are more than none: it does not end.
pub run_phase-hangs :
    (phase : Phase) (clock : ℕ → ℕ) (num_requests connections pipeline : ℕ) (value : Bytes)
    (polls : List (List (ℕ × Ready)))
    → num_requests < connections
    → All (All (Known connections)) polls
    → let b = start phase clock connections 0 pipeline value in
      (requests_per_conn num_requests connections ≡ ok 0)
      × (run_phase connections polls b ≡ ok b)
      × (b.done_count < connections)
unfolding start
run_phase-hangs phase clock num_requests connections pipeline value polls few known =
    let b = start phase clock connections 0 pipeline value in
    let many : connections ≡ length b.conns =
      sym (length-connect phase clock pipeline 0 connections value 0) in
    (
      none_each num_requests connections few,
      run_phase-Done connections polls b (subst (λ n. All (All (Known n)) polls) many known)
          (connect-Done phase clock pipeline connections value 0),
      omega arith,
    )
