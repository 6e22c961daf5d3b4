-- ===== src/Framework.antt =====
-- What the contracts take from the MultiversX framework (multiversx-sc 0.65), which is not part of
-- the repository: the outcome of a call, storage mappers, the call context and transfers.
mod Outcome
mod Storage
mod Chain
pub use Outcome.*
pub use Storage.*
unfoldable pub use Chain.*
