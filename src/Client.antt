-- ===== src/Client.antt =====
-- rsfbclient-rust/src/client.rs: the pure rust client.
pub mod Read
pub mod Lazy
pub mod Session
pub mod Connecting
pub mod Rust
