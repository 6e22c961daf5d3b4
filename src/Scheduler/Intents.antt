-- ===== src/Scheduler/Intents.antt =====
-- Intents: contracts/scheduler/src/intents.rs.
mod Transfers
mod Single
mod Multi
mod PreCognitive
unfoldable pub use Transfers.*
unfoldable pub use Single.*
unfoldable pub use Multi.*
unfoldable pub use PreCognitive.*
