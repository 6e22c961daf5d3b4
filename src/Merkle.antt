-- ===== src/Merkle.antt =====
-- Merkle proofs as the contracts and the keeper compute them: `verify_merkle_proof` of
-- contracts/scheduler/src/intents.rs, `verify_proof` of contracts/xsc-core/src/xsc_core.rs, and
-- `compute_chain_root` of xcron-keeper-rs/src/pcit.rs.
pub mod Proof
pub mod Order
pub mod Agreement
