-- ===== src/Submit.antt =====
-- signer/submit.js: the swap that a live intent becomes.
pub mod Wire
pub mod Execute
pub mod Inspect
mod Tests
pub mod Transaction
