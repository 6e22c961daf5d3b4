-- ===== src/Scheduler/Execution.antt =====
-- Execution of tasks: contracts/scheduler/src/execution.rs.
mod Settlement
mod Dispatch
unfoldable pub use Settlement.*
unfoldable pub use Dispatch.*
