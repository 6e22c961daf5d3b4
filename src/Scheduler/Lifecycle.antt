-- ===== src/Scheduler/Lifecycle.antt =====
-- The life of a task: what must hold before it is executed, and what its end pays to whom.
pub mod Starting
pub mod Ending
pub mod Compressed
pub mod Trading
