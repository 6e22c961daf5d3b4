-- ===== src/Xse.antt =====
-- The XSE protocol, xse-protocol/src: the validation of intents, the enclave's secrets, and the cycle
-- that executes an intent and reports on it.
pub mod Schema
pub mod Validator
pub mod Acceptance
pub mod Batches
pub mod Enclave
pub mod Secrets
pub mod Cycle
pub mod Spending
