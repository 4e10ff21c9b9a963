-- ===== src/Signer.antt =====
-- The signer (signer/server.js): the service that holds the keys, fences the agents' sessions and
-- checks every trade against the owner's policy.
pub mod State
pub mod Change
pub mod Trade
pub mod Transfer
pub mod Routes
pub mod History
pub mod Toy
mod Tests
