-- ===== src/Text.antt =====
-- The parts of Rust's `str`, `char` and integer parsing that the source calls.
pub mod Utf8
pub mod Split
pub mod Number
