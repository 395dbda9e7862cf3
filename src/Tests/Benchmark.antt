-- ===== src/Tests/Benchmark.antt =====
-- The benchmark at a concrete run: three requests, two at a time.
use tokioconf_2026_workshop.Base.{
  ℕ, ◌-◌, ◌*◌, ◌+◌, ◌<◌, ◌≤◌, ◌≡◌, refl, true, false, some, List, [], ◌∷◌, ◌++◌, arith, Bytes,
  codes, ok, length, All,
}
use tokioconf_2026_workshop.Bench.{Phase, build_batch}
use tokioconf_2026_workshop.Bench.Loop.{
  Conn, Ready, accepted, got, new_conn, batch_size_of, run_events, is_done, deregistered,
}
use tokioconf_2026_workshop.Std.Decimal.{decimal}
use tokioconf_2026_workshop.Bench.Loop.Counts.{run_events-is_done}
use tokioconf_2026_workshop.Bench.Run.{Run, start, connect, requests_per_conn, run_phase}
use tokioconf_2026_workshop.Bench.Run.Hangs.{Done, run_phase-hangs}
use tokioconf_2026_workshop.Bench.Run.Ends.{run_phase-ends}

abbrev two_ok : Bytes
two_ok = codes "+OK" ++ (13 ∷ 10 ∷ (codes "+OK" ++ (13 ∷ 10 ∷ [])))

abbrev batch : Bytes
batch = build_batch Phase.set 0 2 (codes "x")

abbrev writable : ℕ → Ready
writable t = record {
  is_writable = true;
  is_readable = false;
  now = t;
  read_at = t;
  writes = accepted 20 ∷ accepted (length batch - 20) ∷ [];
  reads = [];
}

-- The whole batch is taken.
abbrev flushed : ℕ → Ready
flushed t = record {
  is_writable = true;
  is_readable = false;
  now = t;
  read_at = t;
  writes = accepted (length (build_batch Phase.set 0 1 (codes "x"))) ∷ [];
  reads = [];
}

abbrev readable : ℕ → Bytes → Ready
readable t s = record {
  is_writable = false;
  is_readable = true;
  now = t;
  read_at = t;
  writes = [];
  reads = got s ∷ [];
}

abbrev events : List Ready
events =
    writable 10
    ∷ readable 12 (codes "+O")
    ∷ readable 15 (codes "K" ++ (13 ∷ 10 ∷ (codes "+OK" ++ (13 ∷ 10 ∷ []))))
    ∷ writable 20
    ∷ readable 23 two_ok
    ∷ []

abbrev at_end : Conn
at_end = record {
  obuf = batch;
  written = length batch;
  recv = [];
  pending = 0;
  batch_size = 2;
  batch_start = 20;
  batch_latency = some 3;
  sent = 4;
  total = 3;
  connected = true;
  interest = deregistered;
}

events_run :
    run_events events (new_conn Phase.set 0 2 3 (codes "x") 0) ≡ ok (at_end, 2 ∷ 2 ∷ 3 ∷ 3 ∷ [])
unfolding run_events new_conn batch_size_of decimal
events_run = refl

at_end_run : is_done at_end ≡ true
unfolding is_done
at_end_run = refl

run_events-is_done_example :
    (3 ≤ 4) × (4 < 3 + batch_size_of 2 3) × ((k : ℕ) × (4 ≡ k * batch_size_of 2 3))
run_events-is_done_example =
    run_events-is_done Phase.set 0 2 3 (codes "x") 0 events at_end (2 ∷ 2 ∷ 3 ∷ 3 ∷ [])
      (omega arith) events_run at_end_run

-- One request over two connections.
abbrev one_of_two : Run
one_of_two = start Phase.set (λ i. i) 2 0 4 (codes "x")

run_phase-hangs_example :
    (requests_per_conn 1 2 ≡ ok 0)
    × (run_phase 2 (((0, writable 10) ∷ (1, writable 10) ∷ []) ∷ []) one_of_two ≡ ok one_of_two)
    × (one_of_two.done_count < 2)
run_phase-hangs_example =
    run_phase-hangs Phase.set (λ i. i) 1 2 4 (codes "x")
      (((0, writable 10) ∷ (1, writable 10) ∷ []) ∷ []) (omega arith)
      ((omega arith, (omega arith, tt)), tt)

-- Two connections with one request each; the second answers first.
abbrev one_each : Run
one_each = start Phase.set (λ i. i) 2 1 4 (codes "x")

abbrev one_ok : Bytes
one_ok = codes "+OK" ++ (13 ∷ 10 ∷ [])

abbrev polls : List (List (ℕ × Ready))
polls =
    ((0, flushed 10) ∷ (1, flushed 11) ∷ [])
    ∷ ((1, readable 14 one_ok) ∷ [])
    ∷ ((0, readable 16 one_ok) ∷ (1, readable 17 []) ∷ [])
    ∷ []

abbrev ended : ℕ → ℕ → Conn
ended i latency = record {
  obuf = build_batch Phase.set i 1 (codes "x");
  written = length (build_batch Phase.set 0 1 (codes "x"));
  recv = [];
  pending = 0;
  batch_size = 1;
  batch_start = 10 + i;
  batch_latency = some latency;
  sent = 1;
  total = 1;
  connected = true;
  interest = deregistered;
}

abbrev all_done : Run
all_done = record { conns = ended 0 6 ∷ ended 1 3 ∷ []; latencies = 3 ∷ 6 ∷ []; done_count = 2 }

all_done_run : run_phase 2 polls one_each ≡ ok all_done
unfolding run_phase start connect new_conn batch_size_of build_batch decimal
all_done_run = refl

run_phase-ends_example :
    All Done all_done.conns × (all_done.done_count ≡ 2) × (2 * 1 ≤ length all_done.latencies)
run_phase-ends_example =
    run_phase-ends Phase.set (λ i. i) 2 1 4 (codes "x") polls all_done (omega arith) all_done_run
      (omega arith)
