-- ===== src/Workshop.antt =====
-- workshop/src/solutions/: futures, executors and a reactor, as the exercises' solutions build them.
pub mod Futures
pub mod Executor
pub mod Single
pub mod Blocking
pub mod Reactor
pub mod Echo
pub mod EchoServer
