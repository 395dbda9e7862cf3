-- ===== src/Tests.antt =====
-- Concrete inputs for the theorems of the development, and runs of its definitions.
pub mod Wire
pub mod Commands
pub mod Database
pub mod Serving
pub mod Systems
pub mod Exercises
pub mod Executors
pub mod Sessions
pub mod Clients
pub mod Buffering
pub mod Alarms
pub mod Benchmark
pub mod Messages
pub mod Blocking
pub mod Echoing
pub mod EchoServing
pub mod Subscribing
