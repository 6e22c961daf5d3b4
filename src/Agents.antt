-- ===== src/Agents.antt =====
-- The registries and the marketplace for agents (contracts/xcron-agent-shield): identities, jobs and
-- their validation, reputation, and sales.
pub mod Types
pub mod Identity
pub mod Validation
pub mod Reputation
pub mod Marketplace
pub mod Sales
pub mod Requests
