-- ===== src/Lib.antt =====
-- The repository is a workshop on async Rust: `mini-redis`, a small Redis server and client, the
-- exercises of `workshop` with their solutions, and a load generator, `redis-bench`. This library
-- models the server, the client, the benchmark and the solutions of the exercises.
--
-- How the server works: the listener (mini-redis/src/server.rs) accepts connections, at most 250 at
-- a time. A connection (connection.rs) collects bytes in a buffer until `Frame::check` finds a
-- whole frame there, and `Frame::parse` reads it (frame.rs). The frame becomes a command (cmd/),
-- part by part (parse.rs), and the command works on the database (db.rs), which all connections
-- share behind a mutex, and whose background task removes expired values.
--
-- Which file models what:
--   Base, Base/      Boolean tests, lists measured by native numbers, and `Outcome`: a result that is
--                    ok, an error, a panic, or the end of the fuel.
--   Std, Std/        what the code takes from outside: decimal digits (`to_string`), UTF-8, and in
--                    `Platform` the crate atoi and the case tables of `str`, which are parameters with
--                    documented laws; Std/Reference is a concrete platform that satisfies them.
--                    StreamMap: tokio's map of streams, by its laws.
--   Frame, Frame/    mini-redis/src/frame.rs. Cursor: `peek_u8`, `get_u8`, `skip`, `get_line`,
--                    `get_decimal`. Check: `Frame::check`. Decode: `Frame::parse`, here `decode`. Wire:
--                    the wire format, described apart from the code. Total, Local, Reads, RoundTrip,
--                    Complete and Agree: proofs.
--   Connection, Connection/   mini-redis/src/connection.rs: `read_frame`, `parse_frame`, `write_frame`,
--                    `write_value`, `write_decimal`.
--   Parse            mini-redis/src/parse.rs: `Parse` and `ParseError`.
--   Command, Command/   mini-redis/src/cmd/: `Command::from_frame`, each command's `parse_frames` and
--                    `into_frame`. Apply: each command's `apply` but that of `Subscribe`. Subscribe:
--                    subscribe.rs, what a connection does for `SUBSCRIBE` and in the subscribed state.
--   Collections/     `HashMap` as an association list (Dict), `BTreeSet<(Instant, String)>` as a list in
--                    order (Schedule).
--   Db, Db/          mini-redis/src/db.rs: each operation of `Db` and `Shared` on the state behind the
--                    mutex. `lock` is the mutex: a body that panics poisons it. Task:
--                    `purge_expired_tasks`.
--   Server/          mini-redis/src/server.rs. Accept: `Listener::accept`. Listener: the rest of `run`
--                    as a step relation over permits, handlers and phases. Session: `Handler::run`,
--                    `Command::apply`, the loop of `Subscribe::apply` and shutdown.rs, as a machine
--                    whose inputs are the branches that `select!` takes; Session/Store: the map that
--                    the database stands for. System: the listener, all sessions, the purges and the
--                    one database; System/Listening and System/History are proofs about it, from the
--                    listener's side and from the clients'.
--   Client, Client/  mini-redis/src/clients/client.rs: `Client`, and in Subscriber `Subscriber`.
--                    EndToEnd puts a client and a server task together.
--                    Buffered: buffered_client.rs. Blocking: blocking_client.rs. Cli: bin/cli.rs.
--   Bench, Bench/    redis-bench/src/main.rs: `build_batch`, `try_parse_response` and the loop over the
--                    received bytes. Loop: the events of one connection in `run_phase`. Run: all
--                    its connections.
--   Workshop/        workshop/src/solutions/. Futures: ex1_1.rs, ex1_2.rs, ex1_3.rs. Blocking: ex2_1.rs.
--                    Executor: ex2_2.rs.
--                    Reactor and Echo: ex3.rs, the reactor, and `echo` with its reads and writes.
--                    EchoServer: ex3.rs, the executor, the reactor and the tasks of `echo_server`.
--                    Single: workshop/src/ex1_executor.rs.
--   Tests/           concrete inputs.
--
-- Conventions. Bytes and texts are lists of numbers below 256. A cursor holds its position and the
-- bytes from there on. Instants are numbers, durations numbers of nanoseconds. `usize` is 64 bits
-- wide, and `len + 2` wraps in it as in a release build. A message of an error keeps the frame that
-- it shows rather than that frame's text. An arrival is what one `read_buf` finds, so that a list of
-- arrivals is one way in which the network cuts the bytes. What happens under one lock is one step.
--
-- Fuel. `check`, `decode` and the benchmark's `try_parse_response` call themselves for an element of
-- an array only behind a type byte, so that a frame is never deeper than its bytes are many; they
-- are given one unit more than the buffer has bytes. The loop of `purge_expired_keys` shortens the
-- list of deadlines. `accept` has at most eight attempts. The executor's queue may be fed for ever,
-- and its fuel is an argument, as are the unparks by other threads.
--
-- Not modelled: bin/server.rs, the metrics, logging, and the statistics of redis-bench; the crates
-- tokio, bytes, mio and futures are not modelled beyond what the code relies on. The exercises
-- themselves have no bodies. A failure of the outgoing stream is not modelled: a write succeeds.
-- Which messages a subscription yields, and in which order, is an input of a session.
pub mod Base
pub mod Std
pub mod Frame
pub mod Connection
pub mod Parse
pub mod Command
pub mod Collections
pub mod Db
pub mod Server
pub mod Client
pub mod Bench
pub mod Workshop
pub mod Tests
