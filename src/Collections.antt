-- ===== src/Collections.antt =====
-- `HashMap<String, V>` and `BTreeSet<(Instant, String)>` of the standard library, as far as
-- mini-redis/src/db.rs uses them.
pub mod Dict
pub mod Schedule
