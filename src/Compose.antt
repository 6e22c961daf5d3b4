-- ===== src/Compose.antt =====
-- The contracts together: what the Scheduler asks of the others is answered by their models.
pub mod Links
pub mod States
pub mod Markets
pub mod Fees
