-- ===== src/Xwap/Average.antt =====
-- The moving average: its weight stays within the configured bounds, and it lies between the old
-- average and the new reserve.
use xcron_protocol.Prelude.{
  ℕ, ◌+◌, ◌-◌, ◌*◌, ◌/◌, ◌≤◌, ◌<◌, ◌≡◌, Bool, Bool-cases, lt→ltb, refl, inl, inr, ltb, List, [],
  ◌∷◌, arith, ap, ◌==◌, ◌||◌, if◌then◌else◌,
}
use native.Mathlib.Nat.{add-mul}
use xcron_protocol.Framework.{Ctx, SetMapper, SetItems, Ensures, Returns, after}
use xcron_protocol.Xwap.State.{
  State, upgrade, set_gate_threshold, set_alpha_bounds, set_trend_boost, set_gate_boost,
  set_freshness_blocks, set_consensus_min, set_pool_address, register_keeper, remove_keeper,
}
use xcron_protocol.Xwap.Calls.{Call, dispatch, run}
use xcron_protocol.Xwap.Keepers.{report_price}
use xcron_protocol.Xwap.Oracle.{
  weigh, min_of, max_of, boost, compute_alpha, detect_trend, check_gate_internal, update_price,
  update_ewma_reserves, record_price, scale_1e18,
}

abbrev IsBetween : ℕ → ℕ → ℕ → Type 0
IsBetween a b x = (min_of a b ≤ x) × (x ≤ max_of a b)

scaled_le : (a b n : ℕ) → a ≤ b → n * a ≤ n * b
scaled_le a b n h = grind arith

split_weight : (a b m : ℕ) → a + b ≡ 1000 → m * 1000 ≡ a * m + b * m
split_weight a b m h = omega (arith, h, add-mul a b m, ap (λ n. n * m) h)

-- A weighted mean, with weights in thousandths, lies between its parts.
mean_within :
    (a b r e m : ℕ)
    → a + b ≡ 1000
    → ((m ≤ r) × (m ≤ e) → m ≤ (a * r + b * e) / 1000)
      × ((r ≤ m) × (e ≤ m) → (a * r + b * e) / 1000 ≤ m)
mean_within a b r e m h = (
  (λ k. omega (arith, split_weight a b m h, scaled_le m r a k.0, scaled_le m e b k.1)),
  (λ k. omega (arith, split_weight a b m h, scaled_le r m a k.0, scaled_le e m b k.1)),
)

-- What the new average is: the first reserve, or between the old average and the reserve.
abbrev IsAveraged : ℕ → ℕ → ℕ → Type 0
IsAveraged old reserve new = if old == 0 then new ≡ reserve else IsBetween old reserve new

weigh-IsAveraged :
    (alpha reserve ewma : ℕ) → alpha ≤ 1000 → IsAveraged ewma reserve (weigh alpha reserve ewma)
unfolding weigh
weigh-IsAveraged alpha reserve ewma h = ground (
  arith,
  mean_within alpha (1000 - alpha) reserve ewma (min_of ewma reserve),
  mean_within alpha (1000 - alpha) reserve ewma (max_of ewma reserve),
)

-- In a range.
abbrev Within : ℕ → ℕ → ℕ → Type 0
Within lo hi x = (lo ≤ x) × (x ≤ hi)

clamp-Within : (v lo hi : ℕ) → lo ≤ hi → Within lo hi (max_of (min_of v hi) lo)
clamp-Within v lo hi h = ground arith

boost-Within :
    {alpha : ℕ} (applies : Bool) (by lo hi : ℕ)
    → hi ≤ 1000
    → by ≤ 500
    → Within lo hi alpha
    → Within lo hi (boost applies by alpha hi)
boost-Within applies by lo hi h k w = ground arith

module _ {S : Type 0} where
  -- The bounds that the owner's setters impose.
  pub record IsConfigured (s : State S) : Type 0 where
    pub ordered : s.alpha_min_x1000 ≤ s.alpha_max_x1000
    pub at_most_1 : s.alpha_max_x1000 ≤ 1000
    pub trend_at_most : s.trend_boost_x1000 ≤ 500
    pub gate_at_most : s.gate_boost_x1000 ≤ 500

  compute_alpha-Within :
      (gate_open : Bool) (s : State S)
      → IsConfigured s
      → Within s.alpha_min_x1000 s.alpha_max_x1000 (compute_alpha gate_open s)
  unfolding compute_alpha
  compute_alpha-Within gate_open s h =
      elim (Bool-cases (ltb s.update_count 5 || s.prev_xwap_price == 0)) [
        | inl e ↦ rw e (omega arith, h.ordered)
        | inr e ↦
            let lo = s.alpha_min_x1000 in
            let hi = s.alpha_max_x1000 in
            rw e (
              boost-Within gate_open s.gate_boost_x1000 lo hi h.at_most_1 h.gate_at_most (
                boost-Within (detect_trend s) s.trend_boost_x1000 lo hi h.at_most_1 h.trend_at_most
                  (clamp-Within _ lo hi h.ordered)))
      ]

  weighed :
      (a b alpha : ℕ) (s : State S)
      → alpha ≤ 1000
      → IsAveraged s.ewma_reserve_a a (update_ewma_reserves a b alpha s).ewma_reserve_a
        × IsAveraged s.ewma_reserve_b b (update_ewma_reserves a b alpha s).ewma_reserve_b
  unfolding update_ewma_reserves
  weighed a b alpha s h =
      (weigh-IsAveraged alpha a s.ewma_reserve_a h, weigh-IsAveraged alpha b s.ewma_reserve_b h)

-- The average of positive amounts is positive.
IsAveraged-pos : (old r new : ℕ) → 0 < r → IsAveraged old r new → 0 < new
IsAveraged-pos old r new h a = ground (arith, a)

module _ {S : Type 0} ⦃sets : SetMapper S⦄ ⦃its : SetItems S⦄ where
  -- The state after an update with the given reserves.
  abbrev pub IsUpdated : ℕ → ℕ → State S → State S → Type 0
  IsUpdated a b s s' =
      Within s.alpha_min_x1000 s.alpha_max_x1000 s'.alpha_x1000
      × IsAveraged s.ewma_reserve_a (a * scale_1e18) s'.ewma_reserve_a
      × IsAveraged s.ewma_reserve_b (b * scale_1e18) s'.ewma_reserve_b
      × (s'.xwap_price ≡ s'.ewma_reserve_b * scale_1e18 / s'.ewma_reserve_a)
      × (s'.prev_xwap_price ≡ s.xwap_price)

  update_price-averages :
      (c : Ctx) (a b : ℕ) (s : State S)
      → IsConfigured s
      → (0 < a) × (0 < b)
      → Returns (IsUpdated a b s) (update_price c a b s)
  unfolding update_price record_price update_ewma_reserves
  update_price-averages c a b s h pos =
      let gate = check_gate_internal c (b * scale_1e18 / a) s in
      let alpha = compute_alpha gate.0 s in
      let w : Within s.alpha_min_x1000 s.alpha_max_x1000 alpha = compute_alpha-Within gate.0 s h in
      let s1 = update_ewma_reserves (a * scale_1e18) (b * scale_1e18) alpha s in
      let v = weighed (a * scale_1e18) (b * scale_1e18) alpha s (omega (arith, w, h.at_most_1)) in
      let p : 0 < s1.ewma_reserve_a =
        IsAveraged-pos s.ewma_reserve_a (a * scale_1e18) s1.ewma_reserve_a (omega (arith, pos))
          v.0 in
      rw (lt→ltb 0 a pos.0, lt→ltb 0 b pos.1, lt→ltb 0 s1.ewma_reserve_a p)
        (w, v.0, v.1, refl, refl)

  dispatch-IsConfigured :
      (c : Ctx) (call : Call) (s : State S)
      → IsConfigured s
      → Ensures IsConfigured (dispatch c call s)
  unfolding dispatch upgrade set_gate_threshold set_alpha_bounds set_trend_boost set_gate_boost
      set_freshness_blocks set_consensus_min set_pool_address register_keeper remove_keeper
      report_price update_price record_price update_ewma_reserves
  dispatch-IsConfigured c _ s h = ground arith

  run-IsConfigured :
      (calls : List (Ctx × Call)) (s : State S) → IsConfigured s → IsConfigured (run calls s)
  unfolding run
  run-IsConfigured [] s h = h
  run-IsConfigured ((c, call) ∷ calls) s h =
      run-IsConfigured calls (after s (dispatch c call s))
        (ground (arith, dispatch-IsConfigured c call s h))

  -- After any sequence of transactions, an update with positive reserves succeeds, if the settings
  -- were within their bounds before. Its weight is within the bounds that the owner has set, and each
  -- average is the first reserve, or lies between the old average and the new reserve.
  pub update_price_averages :
      (calls : List (Ctx × Call)) (c : Ctx) (a b : ℕ) (s : State S)
      → IsConfigured s
      → (0 < a) × (0 < b)
      → Returns (IsUpdated a b (run calls s)) (update_price c a b (run calls s))
  update_price_averages calls c a b s h pos =
      update_price-averages c a b (run calls s) (run-IsConfigured calls s h) pos
