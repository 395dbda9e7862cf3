-- ===== src/Bench/Run.antt =====
-- redis-bench/src/main.rs: `run_phase`, with all its connections.
pub mod Ends
pub mod Hangs
use tokioconf_2026_workshop.Base.{
  ℕ, zero, suc, ◌+◌, ◌/◌, Bool, true, false, Option, none, some, List, [], ◌∷◌, ◌++◌, Bytes, ltb,
  ◌==◌, if◌then◌else◌, ok, err, panic, out_of_fuel, and_then, length,
}
use tokioconf_2026_workshop.Bench.{Phase, Parsed}
use tokioconf_2026_workshop.Bench.Loop.{Conn, Ready, new_conn, on_event}

-- `done_count`, the connections, and the latencies pushed so far.
pub record Run : Type 0 where
  pub conns : List Conn
  pub latencies : List ℕ
  pub done_count : ℕ

-- `cli.num_requests / cli.connections`, which panics for no connections.
unfoldable pub requests_per_conn : ℕ → ℕ → Parsed ℕ
requests_per_conn num_requests connections =
    if connections == 0 then panic else ok (num_requests / connections)

-- `for i in 0..num_conns`, from `i` on; connection `i` is built at `clock i`.
unfoldable pub connect : Phase → (ℕ → ℕ) → ℕ → ℕ → ℕ → Bytes → ℕ → List Conn
unfolding new_conn
connect phase clock pipeline requests zero value i = []
connect phase clock pipeline requests (suc n) value i =
    new_conn phase i pipeline requests value (clock i)
    ∷ connect phase clock pipeline requests n value (suc i)

unfoldable pub start : Phase → (ℕ → ℕ) → ℕ → ℕ → ℕ → Bytes → Run
unfolding connect
start phase clock num_conns requests pipeline value = record {
  conns = connect phase clock pipeline requests num_conns value 0;
  latencies = [];
  done_count = 0;
}

abbrev pub conn : List Conn → ℕ → Option Conn
conn [] i = none
conn (c ∷ cs) zero = some c
conn (c ∷ cs) (suc i) = conn cs i

abbrev pub put : List Conn → ℕ → Conn → List Conn
put [] i d = []
put (c ∷ cs) zero d = d ∷ cs
put (c ∷ cs) (suc i) d = c ∷ put cs i d

-- One event, for the connection of its token; the index may be out of range.
unfoldable pub dispatch : ℕ → Ready → Option Conn → Run → Parsed Run
unfolding on_event
dispatch idx r none b = panic
dispatch idx r (some c) b = and_then (on_event r c) λ (d, more, finished). ok (record {
  conns = put b.conns idx d;
  latencies = b.latencies ++ more;
  done_count = b.done_count + finished;
})

-- `for event in events.iter()`
unfoldable pub handle_events : List (ℕ × Ready) → Run → Parsed Run
unfolding dispatch
handle_events [] b = ok b
handle_events ((idx, r) ∷ later) b =
    and_then (dispatch idx r (conn b.conns idx) b) (handle_events later)

-- `while done_count < num_conns`, over what each `poll` brings; the loop has ended where the count is
-- reached.
unfoldable pub run_phase : ℕ → List (List (ℕ × Ready)) → Run → Parsed Run
unfolding handle_events
run_phase num_conns [] b = ok b
run_phase num_conns (events ∷ polls) b =
    let rest = and_then (handle_events events b) (run_phase num_conns polls) in
    if ltb b.done_count num_conns then rest else ok b
