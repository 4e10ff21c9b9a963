-- ===== src/NodeHost.antt =====
-- node-host/: what a hosted workload is given.
pub mod Egress
pub mod Env
pub mod Container
pub mod Resolve
pub mod Host
pub mod Toy
mod Tests
