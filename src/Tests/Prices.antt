-- ===== src/Tests/Prices.antt =====
-- The theorems on the price oracle at concrete states.
use xcron_protocol.Prelude.{ℕ, ◌≡◌, refl, Bool, true, none, List, [], ◌∷◌, arith}
use xcron_protocol.Framework.{Ctx, Returns}
use xcron_protocol.Xwap.State.{State, init}
use xcron_protocol.Xwap.Keepers.{insertion_sort, sort_from, sink, get, set}
use xcron_protocol.Xwap.Oracle.{update_price}
use xcron_protocol.Xwap.Calls.{Call, run}
use xcron_protocol.Xwap.Sorting.{IsAscending, tally, insertion_sort_sorts}
use xcron_protocol.Xwap.Average.{IsConfigured, IsUpdated, update_price_averages}
use xcron_protocol.Tests.Models.{bit_set, bit_items, by_owner, as_caller}

abbrev pub Oracle : Type 0
Oracle = State (List Bool)

abbrev pub blank_oracle : Oracle
blank_oracle = record {
  ewma_reserve_a = 0;
  ewma_reserve_b = 0;
  xwap_price = 0;
  prev_xwap_price = 0;
  alpha_x1000 = 0;
  price_history = [];
  price_history_idx = 0;
  update_count = 0;
  keeper_report = [];
  registered_keepers = [];
  gate_threshold_permille = 0;
  alpha_min_x1000 = 0;
  alpha_max_x1000 = 0;
  trend_boost_x1000 = 0;
  gate_boost_x1000 = 0;
  freshness_blocks = 0;
  consensus_min_permille = 0;
  pool_address = none;
  owner_address = none;
}

-- Keepers 0, 1 and 2 have reported; the third one is far off.
abbrev pub reported : Oracle
reported = record blank_oracle {
  xwap_price = 1005;
  prev_xwap_price = 1000;
  keeper_report =
      (0, record { price = 1000; block = 90 })
      ∷ (1, record { price = 9000; block = 89 })
      ∷ (2, record { price = 1010; block = 88 })
      ∷ [];
  registered_keepers = true ∷ true ∷ true ∷ [];
  gate_threshold_permille = 100;
  alpha_min_x1000 = 50;
  alpha_max_x1000 = 700;
  trend_boost_x1000 = 250;
  gate_boost_x1000 = 250;
  freshness_blocks = 2;
  consensus_min_permille = 600;
}

insertion_sort_sorts_example :
    IsAscending (insertion_sort (3 ∷ 1 ∷ 2 ∷ []))
    × ((p : ℕ → Bool) → tally p (insertion_sort (3 ∷ 1 ∷ 2 ∷ [])) ≡ tally p (3 ∷ 1 ∷ 2 ∷ []))
insertion_sort_sorts_example = insertion_sort_sorts (3 ∷ 1 ∷ 2 ∷ [])

insertion_sort_run : insertion_sort (3 ∷ 1 ∷ 2 ∷ []) ≡ 1 ∷ 2 ∷ 3 ∷ []
unfolding insertion_sort sort_from sink get set
insertion_sort_run = refl

reported-IsConfigured : IsConfigured reported
reported-IsConfigured = ground arith

abbrev history : List (Ctx × Call)
history = (as_caller 5, Call.update 10 150) ∷ (as_caller 1, Call.report 1001) ∷ []

update_price_averages_example :
    Returns
      (IsUpdated 10 160 (run history reported))
      (update_price by_owner 10 160 (run history reported))
update_price_averages_example =
    update_price_averages history by_owner 10 160 reported reported-IsConfigured
      (omega arith, omega arith)

-- Seven prices that rise and an eighth that falls.
abbrev short_history : Oracle
short_history = record reported {
  price_history =
      (0, 10) ∷ (1, 11) ∷ (2, 12) ∷ (3, 13) ∷ (4, 14) ∷ (5, 15) ∷ (6, 16) ∷ (7, 12) ∷ [];
  price_history_idx = 8;
  update_count = 8;
}

init_run : (init by_owner 7 blank_oracle).alpha_max_x1000 ≡ 700
unfolding init
init_run = refl
