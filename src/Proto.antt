-- ===== src/Proto.antt =====
-- lib/proto.js: what the processes of the cloud share.
pub mod Value
pub mod Policy
pub mod Sandbox
mod Tests
