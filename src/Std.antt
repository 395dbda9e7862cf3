-- ===== src/Std.antt =====
-- What the program takes from outside its own text: the parts of the Rust standard library that
-- it computes with, and an interface for the crates and the Unicode tables.
pub mod Decimal
pub mod Utf8
pub mod Platform
pub mod Reference
pub mod StreamMap
