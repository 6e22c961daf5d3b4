-- ===== src/Common.antt =====
-- The crate `contracts/common`: protocol constants and the types that the contracts share.
mod Constants
mod Types
mod Bps
pub use Constants.*
pub use Bps.*
pub use Types.*
