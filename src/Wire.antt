-- ===== src/Wire.antt =====
-- rsfbclient-rust/src/wire.rs: the messages of the wire protocol.
pub mod Text
pub mod Status
pub mod Response
pub mod Requests
pub mod Accept
pub mod Attach
pub mod Rows
