-- ===== src/Tests/Operations.antt =====
-- Single operations at concrete states.
use xcron_protocol.Prelude.{◌≡◌, refl, true, false, [], ◌∷◌, be_bytes}
use xcron_protocol.Framework.{ok, err, slippage}
use xcron_protocol.Common.{Comparator}
use xcron_protocol.Scheduler.Validation.{compare_with, oracle_value, require_xwap_market_safe}
use xcron_protocol.Scheduler.Config.{remove_whitelisted_keeper, scan_and_clear, clear_last}
use xcron_protocol.Scheduler.Execution.{require_zk_proof}
use xcron_protocol.Scheduler.Intents.{require_outcomes, leaf_hash, Leaf}
use xcron_protocol.Tests.Models.{env, by_owner, bit_set, dict_vec}
use xcron_protocol.Tests.Schedule.{ready}

-- The oracle's answer is read as a big-endian number; an empty answer counts as 0.
compare_with_run : compare_with Comparator.gt (oracle_value ((1 ∷ 0 ∷ []) ∷ [])) 255 ≡ true
unfolding compare_with oracle_value
compare_with_run = refl

-- A zero address turns the oracle's gate and the check of the proof off.
require_xwap_market_safe_run : require_xwap_market_safe env ready ≡ ok tt
unfolding require_xwap_market_safe
require_xwap_market_safe_run = refl

require_zk_proof_run : require_zk_proof env 1 [] ready ≡ ok tt
unfolding require_zk_proof
require_zk_proof_run = refl

-- The second payment is below the minimum.
require_outcomes_run :
    require_outcomes
      ((21, 60) ∷ (22, 5) ∷ [])
      (record { token_out = 21; min_return = 50 } ∷ record { token_out = 22; min_return = 6 } ∷ [])
    ≡ err slippage
unfolding require_outcomes
require_outcomes_run = refl

abbrev leaf : Leaf
leaf = record {
  target_contract = 6;
  target_endpoint = 112 ∷ [];
  target_args = (7 ∷ []) ∷ [];
  expected_token_out = 21;
  min_return = 50;
}

-- Two encodings of one byte, the endpoint's byte, an argument of one byte behind four of length, the
-- token and the minimum.
leaf_hash_run : leaf_hash env leaf ≡ 9
unfolding leaf_hash be_bytes
leaf_hash_run = refl

-- Removing the first of two listed keepers moves the second into its place and leaves the length.
remove_whitelisted_keeper_run :
    remove_whitelisted_keeper by_owner 3 (record ready { keeper_list = (2, (1, 3) ∷ (2, 5) ∷ []) })
    ≡ ok (record ready {
      whitelisted_keepers = false ∷ false ∷ false ∷ false ∷ [];
      keeper_list = (2, (1, 5) ∷ []);
    })
unfolding bit_set dict_vec remove_whitelisted_keeper scan_and_clear clear_last
remove_whitelisted_keeper_run = refl
