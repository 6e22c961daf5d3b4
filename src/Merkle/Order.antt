-- ===== src/Merkle/Order.antt =====
-- The loop over the bytes of two hashes decides the order of the numbers.
use native.Mathlib.Nat.{
  div-add-mod, mod-lt, mod-eq-sub-mul-div, div-div-eq-div-mul, pow-suc, mod-eq_of_lt,
}
use xcron_protocol.Prelude.{
  ℕ, zero, suc, ◌+◌, ◌*◌, ◌/◌, ◌%◌, ◌^◌, ◌<◌, ◌≤◌, ◌≡◌, ap, true, false, arith, ltb, be_bytes,
  if◌then◌else◌,
}
use xcron_protocol.Merkle.Proof.{bytes_less}

pub pow_pos : (k : ℕ) → 0 < 256 ^ k
pow_pos zero = omega arith
pow_pos (suc k) = rw (pow-suc 256 k) (omega (arith, pow_pos k))

-- The digits of a number at the base 256: the top one, and the rest.
pub mod_split : (a p : ℕ) → 0 < p → a % (p * 256) ≡ a / p % 256 * p + a % p
mod_split a p h = omega (
  arith,
  mod-eq-sub-mul-div a (p * 256),
  ap (λ (q : ℕ). p * 256 * q) (div-div-eq-div-mul a p 256),
  div-add-mod a p,
  ap (λ (q : ℕ). p * q) (div-add-mod (a / p) 256),
)

pub mul_lt : (d e p : ℕ) → d < e → d * p + p ≤ e * p
mul_lt d e p h = grind arith

ltb_digits :
    (d e p r t : ℕ)
    → r < p
    → t < p
    → (if ltb d e then true else (if ltb e d then false else ltb r t)) ≡ ltb (d * p + r) (e * p + t)
ltb_digits d e p r t hr ht = ground (arith, mul_lt d e p, mul_lt e d p)

bytes_less-be_bytes :
    (k a b : ℕ) → bytes_less (be_bytes k a) (be_bytes k b) ≡ ltb (a % 256 ^ k) (b % 256 ^ k)
unfolding bytes_less be_bytes
bytes_less-be_bytes zero a b = ground arith
bytes_less-be_bytes (suc k) a b =
    rw
      (
        pow-suc 256 k,
        mod_split a (256 ^ k) (pow_pos k),
        mod_split b (256 ^ k) (pow_pos k),
        bytes_less-be_bytes k a b,
      )
      (ltb_digits _ _ (256 ^ k) _ _ (mod-lt a (pow_pos k)) (mod-lt b (pow_pos k)))

-- On hashes of 32 bytes the loop of the contracts is the order of the numbers.
pub bytes_less-lt :
    (a b : ℕ) → a < 256 ^ 32 → b < 256 ^ 32 → bytes_less (be_bytes 32 a) (be_bytes 32 b) ≡ ltb a b
bytes_less-lt a b ha hb = rw (bytes_less-be_bytes 32 a b, mod-eq_of_lt ha, mod-eq_of_lt hb)
