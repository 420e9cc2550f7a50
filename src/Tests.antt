-- ===== src/Tests.antt =====
-- Witnesses and runs.
mod Wire
mod Api
mod Cache
mod Cipher
mod Events
mod Attach
mod Xsqlda
mod Rows
mod Session
mod Srp
mod Prepare
