-- ===== src/ControlPlane.antt =====
-- control-plane/server.js: where agents run, and who may act on them.
pub mod State
pub mod Placement
pub mod Sweep
pub mod Access
pub mod Heartbeat
pub mod Quota
pub mod Nodes
pub mod Create
pub mod Collect
pub mod History
pub mod Toy
mod Tests
mod HistoryTests
