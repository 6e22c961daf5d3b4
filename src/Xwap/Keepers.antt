-- ===== src/Xwap/Keepers.antt =====
-- contracts/xwap/src/keepers.rs: price reports, their median, and the consensus.
use xcron_protocol.Prelude.{
  ℕ, zero, suc, ◌+◌, ◌-◌, ◌*◌, ◌/◌, ◌%◌, ◌^◌, Bool, false, none, some, List, [], ◌∷◌, leb, ltb,
  ◌==◌, if◌then◌else◌, Dict, lookup, insert, length,
}
use xcron_protocol.Framework.{
  Result, ok, ◌>>◌, guard, Ctx, SetMapper, contains, len, SetItems, items, u64,
  not_registered_keeper, zero_price,
}
use xcron_protocol.Xwap.State.{State, KeeperReport}

-- `to_u64().unwrap_or(default)`
abbrev pub to_u64_or : ℕ → ℕ → ℕ
to_u64_or default n = if ltb n (2 ^ 64) then n else default

-- `get` and `set` of a `ManagedVec`; the code keeps every index in range.
unfoldable pub get : ℕ → List ℕ → ℕ
get i [] = 0
get zero (x ∷ xs) = x
get (suc i) (x ∷ xs) = get i xs

unfoldable pub set : ℕ → ℕ → List ℕ → List ℕ
set i y [] = []
set zero y (x ∷ xs) = y ∷ xs
set (suc i) y (x ∷ xs) = x ∷ set i y xs

-- The inner loop of the sort: the item at `j` moves down until it meets one that is not greater.
unfoldable pub sink : ℕ → List ℕ → List ℕ
sink zero prices = prices
sink (suc j) prices =
    let p_prev = get j prices in
    let p_cur = get (suc j) prices in
    let rest = sink j (set (suc j) p_prev (set j p_cur prices)) in
    if ltb p_cur p_prev then rest else prices

-- The outer loop: the next `n` items, from index `i` on.
unfoldable pub sort_from : ℕ → ℕ → List ℕ → List ℕ
sort_from zero i prices = prices
sort_from (suc n) i prices = sort_from n (suc i) (sink i prices)

unfoldable pub insertion_sort : List ℕ → List ℕ
insertion_sort prices = sort_from (length prices - 1) 1 prices

-- The median of prices in ascending order.
unfoldable pub middle : List ℕ → ℕ
middle prices =
    let n = length prices in
    if n == 0
    then 0
    else (if n % 2 == 1
        then get (n / 2) prices
        else (get (n / 2 - 1) prices + get (n / 2) prices) / 2)

abbrev pub is_fresh : ℕ → ℕ → KeeperReport → Bool
is_fresh current_block max_age report = leb (current_block - report.block) max_age

-- The prices of the keepers whose report is fresh.
unfoldable pub fresh_prices : ℕ → ℕ → Dict KeeperReport → List ℕ → List ℕ
fresh_prices current_block max_age reports [] = []
fresh_prices current_block max_age reports (keeper ∷ keepers) =
    let rest = fresh_prices current_block max_age reports keepers in
    elim (lookup keeper reports) [
      | none ↦ rest
      | some report ↦ if is_fresh current_block max_age report then report.price ∷ rest else rest
    ]

-- The distance from a base, in thousandths of it.
abbrev pub divergence : ℕ → ℕ → ℕ
divergence price base =
    if ltb base price then (price - base) * 1000 / base else (base - price) * 1000 / base

abbrev agrees : ℕ → ℕ → Bool
agrees median price = leb (to_u64_or (2 ^ 64 - 1) (divergence price median)) 50

-- The loop of `check_consensus`.
unfoldable pub agreeing : ℕ → ℕ → ℕ → Dict KeeperReport → List ℕ → ℕ
agreeing median current_block max_age reports [] = 0
agreeing median current_block max_age reports (keeper ∷ keepers) =
    let rest = agreeing median current_block max_age reports keepers in
    elim (lookup keeper reports) [
      | none ↦ rest
      | some report ↦
          if is_fresh current_block max_age report
          then (if agrees median report.price then rest + 1 else rest)
          else rest
    ]

module _ {S : Type 0} ⦃sets : SetMapper S⦄ where
  unfoldable pub report_price : Ctx → ℕ → State S → Result (State S)
  report_price c price_x1e18 s = do
    guard (contains c.caller s.registered_keepers) not_registered_keeper
    guard (ltb 0 price_x1e18) zero_price
    ok (record s {
      keeper_report =
          insert c.caller (record { price = price_x1e18; block = c.block_nonce }) s.keeper_report;
    })

  module _ ⦃its : SetItems S⦄ where
    abbrev pub fresh_of : Ctx → State S → List ℕ
    fresh_of c s =
        fresh_prices c.block_nonce s.freshness_blocks s.keeper_report (items s.registered_keepers)

    unfoldable pub get_median_off_chain : Ctx → State S → ℕ
    unfolding middle
    get_median_off_chain c s = middle (insertion_sort (fresh_of c s))

    -- How many keepers agree with the median.
    abbrev pub agreeing_of : Ctx → State S → ℕ
    agreeing_of c s =
        agreeing (get_median_off_chain c s) c.block_nonce s.freshness_blocks s.keeper_report
          (items s.registered_keepers)

    unfoldable pub check_consensus : Ctx → State S → Bool
    check_consensus c s =
        if get_median_off_chain c s == 0
        then false
        else (if len s.registered_keepers == 0
            then false
            else leb s.consensus_min_permille
                (u64 (agreeing_of c s * 1000) / len s.registered_keepers))
