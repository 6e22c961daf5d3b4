-- ===== src/Rewards.antt =====
-- The Rewards contract (contracts/rewards/src): it splits protocol fees between the treasury and the
-- keepers, who claim what has accrued.
pub mod Contract
pub mod Accounts
pub mod Ledger
