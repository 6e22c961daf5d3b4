-- ===== src/ZkVerifier.antt =====
-- The proof verifier (contracts/zk-verifier/src/lib.rs): commitments to claims about earlier blocks,
-- and their opening.
pub mod Contract
pub mod Openings
