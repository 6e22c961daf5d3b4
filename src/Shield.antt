-- ===== src/Shield.antt =====
-- The agent shield (contracts/xcron-agent-shield/escrow/src/lib.rs): it executes what an agent
-- proposes, within a daily limit for each token.
pub mod Contract
pub mod Limits
