-- ===== src/KeeperRegistry.antt =====
-- The KeeperRegistry contract (contracts/keeper-registry/src): keepers stake EGLD, are slashed for
-- failed executions, and leave after a cooldown.
pub mod State
pub mod Staking
pub mod Slashing
pub mod Delegation
pub mod Calls
pub mod Consistency
pub mod Runs
pub mod Payouts
pub mod Strikes
pub mod Solvency
pub mod Reserve
