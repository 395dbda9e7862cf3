-- ===== src/Bench/Loop.antt =====
-- redis-bench/src/main.rs: the event loop of `run_phase`, for one connection. What the operating
-- system answers to each call comes with the event.
pub mod Counts
pub mod Finished
use tokioconf_2026_workshop.Base.{
  ℕ, zero, suc, ◌+◌, ◌-◌, Bool, true, false, ◌&&◌, Option, none, some, List, [], ◌∷◌, ◌++◌, Bytes,
  ltb, leb, ◌==◌, if◌then◌else◌, Outcome, ok, err, panic, out_of_fuel, and_then, length,
}
use mathlib.Core.Option
use tokioconf_2026_workshop.Bench.{Phase, Parsed, build_batch, parse_responses}

-- What a connection is registered for.
pub data Interest : Type 0 where
  read_write read_only deregistered : Interest

pub data Written : Type 0 where
  accepted : ℕ → Written
  write_blocks write_fails : Written

pub data Received : Type 0 where
  got : Bytes → Received
  closed read_blocks read_fails : Received

-- An event, with the instants at which the clock is read and the answers of the socket; where they
-- end, the socket would block.
pub record Ready : Type 0 where
  pub is_writable : Bool
  pub is_readable : Bool
  pub now : ℕ
  pub read_at : ℕ
  pub writes : List Written
  pub reads : List Received

pub record Conn : Type 0 where
  pub obuf : Bytes
  pub written : ℕ
  pub recv : Bytes
  pub pending : ℕ
  pub batch_size : ℕ
  pub batch_start : ℕ
  pub batch_latency : Option ℕ
  pub sent : ℕ
  pub total : ℕ
  pub connected : Bool
  pub interest : Interest

unfoldable pub batch_size_of : ℕ → ℕ → ℕ
batch_size_of pipeline requests = if leb pipeline requests then pipeline else requests

unfoldable pub new_conn : Phase → ℕ → ℕ → ℕ → Bytes → ℕ → Conn
unfolding batch_size_of build_batch
new_conn phase i pipeline requests value now = record {
  obuf = build_batch phase i (batch_size_of pipeline requests) value;
  written = 0;
  recv = [];
  pending = batch_size_of pipeline requests;
  batch_size = batch_size_of pipeline requests;
  batch_start = now;
  batch_latency = none;
  sent = batch_size_of pipeline requests;
  total = requests;
  connected = false;
  interest = read_write;
}

-- `while conn.written < conn.obuf.len()`
unfoldable pub flush : List Written → ℕ → ℕ → Parsed ℕ
flush [] len written = ok written
flush (accepted n ∷ ws) len written =
    let rest = flush ws len (written + n) in if ltb written len then rest else ok written
flush (write_blocks ∷ ws) len written = ok written
flush (write_fails ∷ ws) len written = if ltb written len then panic else ok written

unfoldable pub receive : List Received → Bytes → Parsed Bytes
receive [] recv = ok recv
receive (got s ∷ rs) recv = receive rs (recv ++ s)
receive (closed ∷ rs) recv = panic
receive (read_blocks ∷ rs) recv = ok recv
receive (read_fails ∷ rs) recv = panic

-- `conn.sent >= conn.total && conn.pending == 0`
unfoldable pub is_done : Conn → Bool
is_done c = leb c.total c.sent && (c.pending == 0)

-- The second part says that the event is dealt with.
unfoldable pub on_writable : Ready → Conn → Parsed (Conn × Bool)
unfolding flush
on_writable r c = and_then (flush r.writes (length c.obuf) c.written) λ written.
    let c' = record c {
      written = written;
      batch_start = if c.written == 0 then r.now else c.batch_start;
      connected = true;
    } in
    if written == length c.obuf
    then ok (record c' { interest = read_only }, true)
    else ok (c', false)

-- One latency for each response of the batch.
unfoldable pub samples : ℕ → ℕ → List ℕ
samples latency zero = []
samples latency (suc n) = latency ∷ samples latency n

-- The next batch, or the end; with what is added to `done_count`.
unfoldable pub next_batch : Conn → Conn × ℕ
next_batch c =
    if c.pending == 0
    then if leb c.total c.sent then (record c { interest = deregistered }, 1) else (
      record c {
        written = 0;
        pending = c.batch_size;
        sent = c.sent + c.batch_size;
        batch_latency = none;
        interest = read_write;
      },
      0,
    )
    else (c, 0)

-- What an event leads to: the connection, the latencies that are pushed, and what is added to
-- `done_count`.
abbrev pub Handled : Type 0
Handled = Conn × List ℕ × ℕ

-- The event pushed these latencies, before the batch was found to be complete or not.
abbrev pub with_latencies : List ℕ → Conn × ℕ → Handled
with_latencies latencies (c, finished) = (c, latencies, finished)

unfoldable pub on_readable : Ready → Conn → Parsed Handled
unfolding receive samples next_batch parse_responses
on_readable r c =
    let latency = Option.get_or c.batch_latency (r.read_at - c.batch_start) in
    and_then (receive r.reads c.recv) λ recv.
      and_then (parse_responses c.pending recv) λ (pending, rest). ok (
        with_latencies (samples latency (c.pending - pending))
          (next_batch (record c { batch_latency = some latency; recv = rest; pending = pending })))

unfoldable pub then_readable : Ready → Conn × Bool → Parsed Handled
unfolding on_readable
then_readable r (c, true) = ok (c, [], 0)
then_readable r (c, false) = if r.is_readable then on_readable r c else ok (c, [], 0)

-- The body of `for event in events.iter()`.
unfoldable pub on_event : Ready → Conn → Parsed Handled
unfolding is_done on_writable then_readable
on_event r c =
    if is_done c
    then ok (c, [], 0)
    else and_then (if r.is_writable then on_writable r c else ok (c, false)) (then_readable r)

-- The connection behind the events, and all the latencies that they pushed.
unfoldable pub run_events : List Ready → Conn → Parsed (Conn × List ℕ)
unfolding on_event
run_events [] c = ok (c, [])
run_events (r ∷ rs) c =
    and_then (on_event r c)
      λ (c', first, _). and_then (run_events rs c') λ (c'', others). ok (c'', first ++ others)
