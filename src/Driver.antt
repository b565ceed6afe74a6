-- ===== src/Driver.antt =====
-- src/blocking.rs, src/tokio_rt.rs, src/smol_rt.rs: the clients that drive the engine over a
-- transport.
pub mod Blocking
pub mod Owner
pub mod Contract
pub mod Smol
pub mod Handle
pub mod Methods
