-- ===== src/Xwap/Safety.antt =====
-- What the signal that it is safe to execute rests on, and the trend detection of a short history.
use xcron_protocol.Prelude.{
  ℕ, zero, suc, ◌+◌, ◌-◌, refl, ◌∙◌, lt→ltb, ◌*◌, ◌/◌, ◌^◌, ◌≤◌, ◌<◌, ◌≡◌, Bool, true, List, [],
  ◌∷◌, arith, leb→le, leb, ltb, read, length, if◌then◌else◌, Dict,
}
use native.Mathlib.Nat.{le-div_iff_mul-le, mul-le-mul_right}
use xcron_protocol.Framework.{Ctx, SetMapper, SetItems, len, u64}
use xcron_protocol.Xwap.State.{State, KeeperReport}
use xcron_protocol.Xwap.Keepers.{
  agreeing, agreeing_of, check_consensus, get_median_off_chain, divergence, to_u64_or,
}
use xcron_protocol.Xwap.Oracle.{
  count_steps, idx_a, idx_b, detect_trend, check_gate_internal, compute_signals, is_safe_to_execute,
}

agreeing-le :
    (median block age : ℕ) (reports : Dict KeeperReport) (keepers : List ℕ)
    → agreeing median block age reports keepers ≤ length keepers
unfolding agreeing
agreeing-le median block age reports [] = omega arith
agreeing-le median block age reports (k ∷ keepers) =
    ground (arith, agreeing-le median block age reports keepers)

half_agree :
    (k n q : ℕ)
    → k ≤ n
    → n < 2 ^ 32
    → 500 ≤ q
    → leb q (u64 (k * 1000) / n) ≡ true
    → 0 < n
    → n ≤ 2 * k
half_agree k n q h small half e pos =
    let x : u64 (k * 1000) ≡ k * 1000 = omega (arith, h, small) in
    let y : q * n ≤ u64 (k * 1000) = (le-div_iff_mul-le pos).0 (leb→le q (u64 (k * 1000) / n) e) in
    omega (arith, x, y, mul-le-mul_right n half)

gate_lt : (d t : ℕ) → t < 2 ^ 32 → ltb (to_u64_or (2 ^ 64 - 1) d) t ≡ true → d < t
gate_lt d t small e = ground (arith, e)

-- The last step of the trend.
count_steps-last :
    (moved : ℕ → ℕ → Bool) (history : Dict ℕ) (idx n i : ℕ)
    → count_steps moved history idx (suc n) i
      ≡ count_steps moved history idx n i
        + (if moved (read (idx_b idx (i + n)) history) (read (idx_a idx (i + n)) history)
            then 1
            else 0)
unfolding count_steps
count_steps-last moved history idx zero i = ground arith
count_steps-last moved history idx (suc n) i =
    ground (arith, count_steps-last moved history idx n (suc i))

module _ {S : Type 0} ⦃sets : SetMapper S⦄ ⦃its : SetItems S⦄ where
  agreeing_of-le : (c : Ctx) (s : State S) → agreeing_of c s ≤ len s.registered_keepers
  agreeing_of-le c s = rw (its.len-items s.registered_keepers) (agreeing-le _ _ _ _ _)

  -- The oracle says that it is safe to execute only if at least half of all registered keepers, and
  -- not only of those that report, have a fresh report within 5% of the median, if the owner's minimum
  -- is at least a half, and the price is off the median by less than the threshold.
  pub is_safe_to_execute-majority :
      (c : Ctx) (s : State S)
      → 500 ≤ s.consensus_min_permille
      → s.gate_threshold_permille < 2 ^ 32
      → len s.registered_keepers < 2 ^ 32
      → is_safe_to_execute c s ≡ true
      → (0 < len s.registered_keepers)
        × (len s.registered_keepers ≤ 2 * agreeing_of c s)
        × (divergence s.xwap_price (get_median_off_chain c s) < s.gate_threshold_permille)
  unfolding is_safe_to_execute compute_signals check_gate_internal check_consensus
  is_safe_to_execute-majority c s half t small safe = ground (
    arith,
    safe,
    half_agree (agreeing_of c s) (len s.registered_keepers) s.consensus_min_permille
        (agreeing_of-le c s) small half,
    gate_lt (divergence s.xwap_price (get_median_off_chain c s)) s.gate_threshold_permille t,
  )

seven_rises :
    (h : Dict ℕ)
    → read 9 h ≡ 0
    → 0 < read 0 h
    → count_steps (λ b a. ltb b a) h 8 7 0 ≡ 6
    → count_steps (λ b a. ltb b a) h 8 8 0 ≡ 7
seven_rises h z p six =
    count_steps-last (λ b a. ltb b a) h 8 7 0 ∙ rw (six, z, lt→ltb 0 (read 0 h) p) refl

module _ {S : Type 0} where
  -- After eight prices the trend has seven steps, and the eighth compares the first price with a slot
  -- that was never written. It counts as a rise, so six rises and one fall pass for a trend of seven.
  pub detect_trend_short :
      (s : State S)
      → (s.update_count ≡ 8) × (s.price_history_idx ≡ 8)
      → (read 9 s.price_history ≡ 0) × (0 < read 0 s.price_history)
      → count_steps (λ b a. ltb b a) s.price_history 8 7 0 ≡ 6
      → detect_trend s ≡ true
  unfolding detect_trend
  detect_trend_short s n p six = rw (n.0, n.1, seven_rises s.price_history p.0 p.1 six) refl
