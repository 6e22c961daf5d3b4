-- ===== src/Scheduler/Funds.antt =====
-- What the Scheduler owes, and that its EGLD covers it.
pub mod Books
pub mod Tasks
pub mod Executions
pub mod Keys
pub mod Opening
pub mod Closing
pub mod Runs
