-- ===== src/Settlement.antt =====
-- How a settled amount moves value between a trader's buckets, the haircut state and the insurance
-- fund: the money-moving helpers of programs/clober/src/lib.rs.
pub mod Pnl
pub mod Junior
