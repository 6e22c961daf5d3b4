-- ===== src/Xwap.antt =====
-- The price oracle xWAP (contracts/xwap/src): a moving average of pool reserves, checked against the
-- median of the prices that keepers report.
pub mod State
pub mod Keepers
pub mod Oracle
pub mod Calls
pub mod Sorting
pub mod Median
pub mod Average
pub mod Safety
