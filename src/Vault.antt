-- ===== src/Vault.antt =====
-- The vault (contracts/vault/src/lib.rs): deposits that it delegates, withdrawals that it holds until
-- the provider has unbonded them, and the strategies that the Scheduler triggers.
pub mod State
pub mod Savings
pub mod Strategies
pub mod Calls
pub mod Pending
pub mod Flights
