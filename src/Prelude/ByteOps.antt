-- ===== src/Prelude/ByteOps.antt =====
-- `|` and `^` on bytes.
use Prim.Native.Nat.{ℕ, zero, suc, ◌<◌, bit_or, bit_xor}
use mathlib.Core.Path.{◌≡◌, refl}
use mathlib.Core.Bool.{Bool, true, false, ◌&&◌}
use mathlib.Core.Logic.{inl, inr}
use native.Mathlib.Omega.{arith}
use xcron_protocol.Prelude.Tests.{◌==◌, ==_iff, ltb, Bool-cases, if◌then◌else◌}

-- Whether a test succeeds at `0`, …, `bound - 1`.
succeeds : (ℕ → Bool) → ℕ → Bool
succeeds test zero = true
succeeds test (suc bound) =
    let smaller = succeeds test bound in if test bound then smaller else false

succeeds_at :
    (test : ℕ → Bool) (bound n : ℕ) → succeeds test bound ≡ true → n < bound → test n ≡ true
unfolding succeeds
succeeds_at test zero n ok small = absurd (omega arith)
succeeds_at test (suc bound) n ok small = elim (Bool-cases (n == bound)) [
  | inl e ↦ (let last : n ≡ bound = (==_iff n bound).0 e in rw last (ground (arith, ok)))
  | inr e ↦ succeeds_at test bound n (ground (arith, ok)) (ground (arith, e, small))
]

abbrev same : Bool → Bool → Bool
same true b = b
same false true = false
same false false = true

xor_test : ℕ → ℕ → Bool
xor_test x y = same (bit_xor x y == 0) (x == y) && ltb (bit_xor x y) 256

or_test : ℕ → ℕ → Bool
or_test x y = same (bit_or x y == 0) ((x == 0) && (y == 0)) && ltb (bit_or x y) 256

xor_table : succeeds (λ a. succeeds (xor_test a) 256) 256 ≡ true
unfolding succeeds xor_test
xor_table = refl

or_table : succeeds (λ a. succeeds (or_test a) 256) 256 ≡ true
unfolding succeeds or_test
or_table = refl

xor_tested : (x y : ℕ) → x < 256 → y < 256 → xor_test x y ≡ true
xor_tested x y h k =
    succeeds_at (xor_test x) 256 y (succeeds_at (λ a. succeeds (xor_test a) 256) 256 x xor_table h)
      k

or_tested : (x y : ℕ) → x < 256 → y < 256 → or_test x y ≡ true
or_tested x y h k =
    succeeds_at (or_test x) 256 y (succeeds_at (λ a. succeeds (or_test a) 256) 256 x or_table h) k

-- Bytes differ in no bit exactly when they are equal.
pub bit_xor-zero : (x y : ℕ) → x < 256 → y < 256 → (bit_xor x y == 0) ≡ (x == y)
unfolding xor_test
bit_xor-zero x y h k = ground (arith, xor_tested x y h k)

pub bit_xor-lt : (x y : ℕ) → x < 256 → y < 256 → bit_xor x y < 256
unfolding xor_test
bit_xor-lt x y h k = ground (arith, xor_tested x y h k)

-- A disjunction is zero exactly when both sides are, and is a byte again.
pub bit_or-zero : (x y : ℕ) → x < 256 → y < 256 → (bit_or x y == 0) ≡ ((x == 0) && (y == 0))
unfolding or_test
bit_or-zero x y h k = ground (arith, or_tested x y h k)

pub bit_or-lt : (x y : ℕ) → x < 256 → y < 256 → bit_or x y < 256
unfolding or_test
bit_or-lt x y h k = ground (arith, or_tested x y h k)
