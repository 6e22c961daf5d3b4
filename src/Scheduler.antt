-- ===== src/Scheduler.antt =====
-- The Scheduler contract (contracts/scheduler/src): it holds the deposits of automation tasks, has
-- them executed by keepers, and settles them in callbacks.
pub mod State
pub mod Environment
pub mod Validation
pub mod Config
pub mod CloneKeys
pub mod Scheduling
pub mod Execution
pub mod Intents
pub mod Calls
pub mod Funds
pub mod Lifecycle
