-- ===== src/Keeper.antt =====
-- The keeper service, xcron-keeper-rs/src: the sessions of stealth addresses and their retries, the
-- daily limit of drips, and what it encodes for the contracts.
pub mod Sessions
pub mod Retries
pub mod Passes
pub mod Float
pub mod Limits
pub mod LostKeys
pub mod Drips
pub mod DailyCap
pub mod Leaves
pub mod Transactions
