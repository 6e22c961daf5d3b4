-- ===== src/XscCore.antt =====
-- State compression (contracts/xsc-core/src/xsc_core.rs): the root that one keeper updates, and the
-- check of a leaf against it with a packed proof.
pub mod Contract
pub mod Packing
pub mod Unpacking
