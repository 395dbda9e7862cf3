-- ===== src/Bench/Run/Ends.antt =====
-- The benchmark, when all its connections are done.
use tokioconf_2026_workshop.Base.{
  ℕ, zero, suc, ◌+◌, ◌*◌, ◌<◌, ◌≤◌, ◌≡◌, refl, ap, ◌∙◌, subst, inl, inr, Option, none, some, List,
  [], ◌∷◌, ◌++◌, length-append, arith, Bytes, ltb, ok, err, panic, out_of_fuel, and_then, length,
  All, Bool-cases,
}
use tokioconf_2026_workshop.Bench.{Phase, Parsed}
use tokioconf_2026_workshop.Bench.Loop.{
  Conn, Ready, new_conn, batch_size_of, is_done, Handled, on_event,
}
use tokioconf_2026_workshop.Bench.Loop.Counts.{
  Returns, then-Returns, Inv, on_event-Inv, new_conn-Inv,
}
use tokioconf_2026_workshop.Bench.Loop.Finished.{flag, on_event-flag}
use tokioconf_2026_workshop.Bench.Run.{
  Run, connect, start, conn, put, dispatch, handle_events, run_phase,
}
use tokioconf_2026_workshop.Bench.Run.Hangs.{Done, length-connect}

-- Of `m` responses and `d` connections that are done, each connection has its share.
abbrev Split : ℕ → ℕ → List Conn → ℕ → ℕ → Type 0
Split b t [] m d = (m ≡ 0) × (d ≡ 0)
Split b t (c ∷ cs) m d =
    (n : ℕ) × (m' : ℕ) × (d' : ℕ) × Inv b t n c
    × (m ≡ n + m')
    × (d ≡ flag c + d')
    × Split b t cs m' d'

length-put : (cs : List Conn) (i : ℕ) (c : Conn) → length (put cs i c) ≡ length cs
length-put [] i c = refl
length-put (d ∷ cs) zero c = refl
length-put (d ∷ cs) (suc i) c = ap suc (length-put cs i c)

-- One connection takes a step.
put-Split :
    (b t : ℕ) (cs : List Conn) (i : ℕ) (c c' : Conn) (m d k e : ℕ)
    → conn cs i ≡ some c
    → ((n : ℕ) → Inv b t n c → Inv b t (n + k) c')
    → flag c' ≡ flag c + e
    → Split b t cs m d
    → Split b t (put cs i c') (m + k) (d + e)
put-Split b t [] i c c' m d k e q h f s = absurd cc
put-Split b t (x ∷ cs) zero c c' m d k e q h f (n, m', d', v, em, ed, s) =
    let same : x ≡ c = some_conn q in
    let g : flag x ≡ flag c = ap flag same in
    (n + k, m', d', h n (subst (Inv b t n) same v), omega arith, omega arith, s)
  where
    some_conn : {a b : Conn} → some a ≡ some b → a ≡ b
    some_conn p = cc
put-Split b t (x ∷ cs) (suc i) c c' m d k e q h f (n, m', d', v, em, ed, s) =
    (n, m' + k, d' + e, v, omega arith, omega arith, put-Split b t cs i c c' m' d' k e q h f s)

-- The run has `n` connections, whose shares are right.
record Good (b t n : ℕ) (run : Run) : Type 0 where
  shares : Split b t run.conns (length run.latencies) run.done_count
  many : length run.conns ≡ n

dispatch-Good :
    (b t n i : ℕ) (r : Ready) (run : Run) (o : Option Conn)
    → conn run.conns i ≡ o
    → Good b t n run
    → Returns (Good b t n) (dispatch i r o run)
unfolding dispatch
dispatch-Good b t n i r run none e g = tt
dispatch-Good b t n i r run (some c) e g = by_result (on_event r c) refl
  where
    by_result :
        (o : Parsed Handled)
        → on_event r c ≡ o
        → Returns (Good b t n) (
            and_then o λ (d, more, finished). ok (record {
              conns = put run.conns i d;
              latencies = run.latencies ++ more;
              done_count = run.done_count + finished;
            }))
    by_result (ok (d, more, finished)) q = record {
      shares = rw (length-append run.latencies more) (
          put-Split b t run.conns i c d _ _ (length more) finished e
            (λ m v.
              subst (Returns (λ p. Inv b t (m + length p.1) p.0)) q (on_event-Inv b t m r c v))
            (subst (Returns (λ p. flag p.0 ≡ flag c + p.2)) q (on_event-flag r c)) g.shares);
      many = length-put run.conns i d ∙ g.many;
    }
    by_result (err _) q = tt
    by_result panic q = tt
    by_result out_of_fuel q = tt

handle_events-Good :
    (b t n : ℕ) (events : List (ℕ × Ready)) (run : Run)
    → Good b t n run
    → Returns (Good b t n) (handle_events events run)
unfolding handle_events
handle_events-Good b t n [] run g = g
handle_events-Good b t n ((i, r) ∷ later) run g =
    then-Returns (Good b t n) (Good b t n) (dispatch i r (conn run.conns i) run)
      (handle_events later) (dispatch-Good b t n i r run _ refl g) (handle_events-Good b t n later)

run_phase-Good :
    (b t n : ℕ) (polls : List (List (ℕ × Ready))) (run : Run)
    → Good b t n run
    → Returns (Good b t n) (run_phase n polls run)
unfolding run_phase
run_phase-Good b t n [] run g = g
run_phase-Good b t n (events ∷ polls) run g = elim (Bool-cases (ltb run.done_count n)) [
  | inl e ↦ rw e (
      then-Returns (Good b t n) (Good b t n) (handle_events events run) (run_phase n polls)
        (handle_events-Good b t n events run g) (run_phase-Good b t n polls))
  | inr e ↦ rw e g
]

new_conn-flag :
    (phase : Phase) (i pipeline requests : ℕ) (value : Bytes) (now : ℕ)
    → 0 < requests
    → flag (new_conn phase i pipeline requests value now) ≡ 0
unfolding new_conn is_done batch_size_of
new_conn-flag phase i pipeline requests value now k = ground arith

connect-Split :
    (phase : Phase) (clock : ℕ → ℕ) (pipeline requests n : ℕ) (value : Bytes) (i : ℕ)
    → 0 < requests
    → Split
        (batch_size_of pipeline requests)
        requests
        (connect phase clock pipeline requests n value i)
        0
        0
unfolding connect new_conn
connect-Split phase clock pipeline requests zero value i k = (refl, refl)
connect-Split phase clock pipeline requests (suc n) value i k =
    let f = new_conn-flag phase i pipeline requests value (clock i) k in
    (
      0,
      0,
      0,
      new_conn-Inv phase i pipeline requests value (clock i) k,
      refl,
      omega arith,
      connect-Split phase clock pipeline requests n value (suc i) k,
    )

done-most : (b t : ℕ) (cs : List Conn) (m d : ℕ) → Split b t cs m d → d ≤ length cs
done-most b t [] m d (em, ed) = omega arith
done-most b t (c ∷ cs) m d (n, m', d', v, em, ed, s) =
    let h = done-most b t cs m' d' s in ground arith

-- A connection that is done has counted the responses it was to get.
Done-counted : (b t n : ℕ) (c : Conn) → Inv b t n c → Done c → t ≤ n
unfolding is_done
Done-counted b t n c v e = ground (arith, v.goal, v.balance)

Split-full :
    (b t : ℕ) (cs : List Conn) (m d : ℕ)
    → Split b t cs m d
    → length cs ≤ d
    → All Done cs × (length cs * t ≤ m)
Split-full b t [] m d s h = (tt, omega arith)
Split-full b t (c ∷ cs) m d (n, m', d', v, em, ed, s) h = elim (Bool-cases (is_done c)) [
  | inl e ↦
      let one : flag c ≡ 1 = rw e refl in
      let (all, enough) = Split-full b t cs m' d' s (omega arith) in
      let own = Done-counted b t n c v e in ((e, all), omega arith)
  | inr e ↦
      let none_done : flag c ≡ 0 = rw e refl in
      let most = done-most b t cs m' d' s in absurd (omega arith)
]

-- When the loop of `run_phase` ends, with all its connections counted as done and at least one
-- request for each, then every connection is done, none is counted twice, and at least as many
-- latencies are recorded as the connections have requests to make.
pub run_phase-ends :
    (phase : Phase) (clock : ℕ → ℕ) (num_conns requests pipeline : ℕ) (value : Bytes)
    (polls : List (List (ℕ × Ready))) (run : Run)
    → 0 < requests
    → run_phase num_conns polls (start phase clock num_conns requests pipeline value) ≡ ok run
    → num_conns ≤ run.done_count
    → All Done run.conns
      × (run.done_count ≡ num_conns)
      × (num_conns * requests ≤ length run.latencies)
unfolding start
run_phase-ends phase clock num_conns requests pipeline value polls run k ran ended =
    let b = batch_size_of pipeline requests in
    let g : Good b requests num_conns run = subst (Returns (Good b requests num_conns)) ran (
      run_phase-Good b requests num_conns polls _ (record {
        shares = connect-Split phase clock pipeline requests num_conns value 0 k;
        many = length-connect phase clock pipeline requests num_conns value 0;
      })) in
    let most = done-most b requests run.conns _ _ g.shares in
    let same = g.many in
    let (all, enough) = Split-full b requests run.conns _ _ g.shares (omega arith) in
    (all, omega arith, subst (λ n. n * requests ≤ length run.latencies) same enough)
