-- ===== src/Tests.antt =====
-- Concrete instances and states, and the theorems at them.
mod Models
mod Schedule
mod Tasks
mod Trades
mod Registry
mod Fees
mod Proofs
mod Operations
mod Vaults
mod Prices
mod Agents
mod Commitments
mod Sales
mod Sessions
mod Exchange
mod Links
