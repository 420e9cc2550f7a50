-- ===== src/Api.antt =====
-- src/: the crate's own connections, transactions and statements, over any client that implements
-- the traits of rsfbclient-core/src/connection.rs.
pub mod Client
pub mod Params
pub mod State
pub mod Statement
pub mod Cache
pub mod Transaction
pub mod Connection
pub mod Queries
pub mod Keeps
pub mod Ledger
pub mod Reuse
