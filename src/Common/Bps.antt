-- ===== src/Common/Bps.antt =====
-- A share of an amount in basis points.
use xcron_protocol.Prelude.{ℕ, ◌*◌, ◌/◌, ◌≤◌, arith}
use xcron_protocol.Common.Constants.{bps_denominator}

mul_bps_le : (x bps : ℕ) → bps ≤ 10000 → x * bps ≤ x * 10000
mul_bps_le x bps h = grind arith

-- A share of at most 100% is at most the amount.
pub bps_le : (x bps : ℕ) → bps ≤ 10000 → x * bps / bps_denominator ≤ x
bps_le x bps h = omega (arith, mul_bps_le x bps h)
