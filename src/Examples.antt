-- ===== src/Examples.antt =====
-- The theorems at concrete inputs, and runs of the code.
mod Text
mod Session
mod Drivers
mod Handles
