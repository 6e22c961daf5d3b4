-- ===== src/Xwap/Oracle.antt =====
-- contracts/xwap/src/oracle.rs: the moving average, its weight, the gate and the signals; and
-- `is_safe_to_execute` of views.rs.
use xcron_protocol.Prelude.{
  ℕ, zero, suc, ◌+◌, ◌-◌, ◌*◌, ◌/◌, ◌%◌, ◌^◌, Bool, true, false, ◌&&◌, ◌||◌, none, some, List, [],
  ◌∷◌, leb, ltb, ◌==◌, if◌then◌else◌, Dict, lookup, insert, read,
}
use xcron_protocol.Framework.{
  Result, ok, ◌>>◌, guard, Ctx, SetMapper, SetItems, items, u64, zero_reserve_a, zero_reserve_b,
  ewma_zero,
}
use xcron_protocol.Xwap.State.{State, KeeperReport, XwapSignals}
use xcron_protocol.Xwap.Keepers.{
  to_u64_or, is_fresh, divergence, get_median_off_chain, check_consensus,
}

abbrev pub scale_1e18 : ℕ
scale_1e18 = 1000000000000000000

-- The new average: the first reserve seeds it.
unfoldable pub weigh : ℕ → ℕ → ℕ → ℕ
weigh alpha reserve ewma =
    let one_minus = u64 (1000 + (2 ^ 64 - alpha)) in
    if ewma == 0 then reserve else (alpha * reserve + one_minus * ewma) / 1000

abbrev pub min_of : ℕ → ℕ → ℕ
min_of a b = if ltb b a then b else a

abbrev pub max_of : ℕ → ℕ → ℕ
max_of a b = if ltb a b then b else a

-- Step `i` of the trend: the index of the newer price and that of the older one.
abbrev pub idx_a : ℕ → ℕ → ℕ
idx_a current_idx i = (current_idx + 10 - i - 1) % 10

abbrev pub idx_b : ℕ → ℕ → ℕ
idx_b current_idx i = (current_idx + 10 - i - 2) % 10

-- The loop of `detect_trend`, over the steps `i` for which the price moved from `b` to `a`.
unfoldable pub count_steps : (ℕ → ℕ → Bool) → Dict ℕ → ℕ → ℕ → ℕ → ℕ
count_steps moved history current_idx zero i = 0
count_steps moved history current_idx (suc n) i =
    let rest = count_steps moved history current_idx n (suc i) in
    if moved (read (idx_b current_idx i) history) (read (idx_a current_idx i) history)
    then rest + 1
    else rest

-- A boost, if it applies.
abbrev pub boost : Bool → ℕ → ℕ → ℕ → ℕ
boost applies by alpha alpha_max = if applies then min_of (u64 (alpha + by)) alpha_max else alpha

module _ {S : Type 0} where
  unfoldable pub update_ewma_reserves : ℕ → ℕ → ℕ → State S → State S
  unfolding weigh
  update_ewma_reserves reserve_a reserve_b alpha s = record s {
    ewma_reserve_a = weigh alpha reserve_a s.ewma_reserve_a;
    ewma_reserve_b = weigh alpha reserve_b s.ewma_reserve_b;
  }

  unfoldable pub detect_trend : State S → Bool
  unfolding count_steps
  detect_trend s =
      if ltb s.update_count 8
      then false
      else leb 7 (count_steps (λ b a. ltb b a) s.price_history s.price_history_idx 8 0)
        || leb 7 (count_steps (λ b a. ltb a b) s.price_history s.price_history_idx 8 0)

  -- The weight that the volatility asks for.
  abbrev vol_alpha : State S → ℕ
  vol_alpha s =
      let vol =
        to_u64_or (u64 (s.alpha_max_x1000 * 1000) / 3)
          (divergence s.xwap_price s.prev_xwap_price) in
      max_of (min_of (u64 (vol * 3)) s.alpha_max_x1000) s.alpha_min_x1000

  unfoldable pub compute_alpha : Bool → State S → ℕ
  compute_alpha gate_open s =
      if ltb s.update_count 5 || s.prev_xwap_price == 0
      then s.alpha_min_x1000
      else boost gate_open s.gate_boost_x1000
          (boost (detect_trend s) s.trend_boost_x1000 (vol_alpha s) s.alpha_max_x1000)
          s.alpha_max_x1000

  unfoldable pub stability : State S → ℕ
  stability s =
      if s.prev_xwap_price == 0 || s.xwap_price == 0
      then 0
      else to_u64_or 999 (divergence s.xwap_price s.prev_xwap_price)

  -- What `update_price` records once the averages are there.
  unfoldable pub record_price : ℕ → State S → State S
  record_price alpha s =
      let new_xwap = s.ewma_reserve_b * scale_1e18 / s.ewma_reserve_a in
      record s {
        price_history = insert s.price_history_idx new_xwap s.price_history;
        price_history_idx = u64 (s.price_history_idx + 1) % 10;
        update_count = u64 (s.update_count + 1);
        prev_xwap_price = s.xwap_price;
        xwap_price = new_xwap;
        alpha_x1000 = alpha;
      }

-- The loop of `check_freshness_internal`.
unfoldable pub has_fresh : ℕ → ℕ → Dict KeeperReport → List ℕ → Bool
has_fresh current_block max_age reports [] = false
has_fresh current_block max_age reports (keeper ∷ keepers) =
    let rest = has_fresh current_block max_age reports keepers in
    elim (lookup keeper reports) [
      | none ↦ rest
      | some report ↦ if is_fresh current_block max_age report then true else rest
    ]

module _ {S : Type 0} ⦃sets : SetMapper S⦄ ⦃its : SetItems S⦄ where
  -- Whether the gate is open, and the divergence.
  unfoldable pub check_gate_internal : Ctx → ℕ → State S → Bool × ℕ
  check_gate_internal c spot_price s =
      let median = get_median_off_chain c s in
      if median == 0
      then (false, 2 ^ 64 - 1)
      else (let divergence_permille = to_u64_or (2 ^ 64 - 1) (divergence spot_price median) in
          (ltb divergence_permille s.gate_threshold_permille, divergence_permille))

  abbrev check_freshness_internal : Ctx → State S → Bool
  check_freshness_internal c s =
      has_fresh c.block_nonce s.freshness_blocks s.keeper_report (items s.registered_keepers)

  unfoldable pub compute_signals : Ctx → State S → XwapSignals
  compute_signals c s =
      let gate_open = (check_gate_internal c s.xwap_price s).0 in
      let consensus_ok = check_consensus c s in
      let freshness_ok = check_freshness_internal c s in
      record {
        gate_open = gate_open;
        consensus_ok = consensus_ok;
        freshness_ok = freshness_ok;
        stability_permille = stability s;
        safe = gate_open && consensus_ok && freshness_ok;
      }

  unfoldable pub is_safe_to_execute : Ctx → State S → Bool
  is_safe_to_execute c s = (compute_signals c s).safe

  unfoldable pub update_price : Ctx → ℕ → ℕ → State S → Result (State S)
  update_price c raw_reserve_a raw_reserve_b s = do
    guard (ltb 0 raw_reserve_a) zero_reserve_a
    guard (ltb 0 raw_reserve_b) zero_reserve_b
    let gate = check_gate_internal c (raw_reserve_b * scale_1e18 / raw_reserve_a) s
    let alpha = compute_alpha gate.0 s
    let s1 = update_ewma_reserves (raw_reserve_a * scale_1e18) (raw_reserve_b * scale_1e18) alpha s
    guard (ltb 0 s1.ewma_reserve_a) ewma_zero
    ok (record_price alpha s1)
