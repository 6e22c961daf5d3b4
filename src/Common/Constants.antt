-- ===== src/Common/Constants.antt =====
-- contracts/common/src/constants.rs
use xcron_protocol.Prelude.{ℕ, ◌*◌}

abbrev pub bps_denominator : ℕ
bps_denominator = 10000

abbrev pub default_reveal_window_seconds : ℕ
default_reveal_window_seconds = 60

abbrev pub unstake_cooldown_seconds : ℕ
unstake_cooldown_seconds = 43200

abbrev pub slash_strike_1_bps : ℕ
slash_strike_1_bps = 500

abbrev pub slash_strike_2_bps : ℕ
slash_strike_2_bps = 1500

abbrev pub slash_strike_3_bps : ℕ
slash_strike_3_bps = 2000

abbrev pub egld_decimals : ℕ
egld_decimals = 1000000000000000000

abbrev pub max_gas_limit : ℕ
max_gas_limit = 300000000

abbrev pub callback_gas_reserve : ℕ
callback_gas_reserve = 25000000

abbrev pub default_max_reward_per_exec : ℕ
default_max_reward_per_exec = 50000000000000000

abbrev pub early_exit_penalty_bps : ℕ
early_exit_penalty_bps = 500

abbrev pub min_keeper_days_seconds : ℕ
min_keeper_days_seconds = 2592000

abbrev pub max_strikes : ℕ
max_strikes = 3

abbrev pub round_robin_grace_seconds : ℕ
round_robin_grace_seconds = 30

abbrev pub max_target_failures : ℕ
max_target_failures = 10

abbrev pub default_max_tasks_per_round : ℕ
default_max_tasks_per_round = 10

abbrev pub max_clone_key_spend_limit : ℕ
max_clone_key_spend_limit = 2 * egld_decimals

abbrev pub max_clone_keys_per_wallet : ℕ
max_clone_keys_per_wallet = 3

abbrev pub max_clone_key_ttl_seconds : ℕ
max_clone_key_ttl_seconds = 2592000

abbrev pub min_clone_key_ttl_seconds : ℕ
min_clone_key_ttl_seconds = 3600
