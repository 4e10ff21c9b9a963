-- ===== src/VerifiedIntent.antt =====
-- lib/verified-intent.js: the gate that the signer runs before it signs a trade, and
-- `normalizeRule` and `normalizeVerified` of lib/proto.js, which prepare its configuration.
pub mod Replay
pub mod Evidence
pub mod Rule
pub mod Gate
