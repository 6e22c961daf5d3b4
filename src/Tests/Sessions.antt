-- ===== src/Tests/Sessions.antt =====
-- The theorems on the keeper service at concrete sessions, drips and leaves.
use xcron_protocol.Prelude.{
  ℕ, ◌+◌, ◌≤◌, ◌≡◌, refl, true, false, some, List, [], ◌∷◌, ◌++◌, arith, codes, lookup, ltb,
  if◌then◌else◌, be_bytes,
}
use xcron_protocol.Prelude.Fallible.{done}
use xcron_protocol.Prelude.Decimal.{parse_u128, parse_digits}
use xcron_protocol.Keeper.Sessions.{
  PrivacySession, PrivacySessionManager, Sweeps, failed_sweep, dripped, authorize_session,
  current_outstanding, active_user_sessions, contains, process_retry_queue,
}
use xcron_protocol.Keeper.Passes.{process_passes, process_passes_empties}
use xcron_protocol.Keeper.Limits.{IsLimited, authorize, here, next, Reach-IsLimited}
use xcron_protocol.Keeper.LostKeys.{resolved, missing_key_counts_as_swept}
use xcron_protocol.Keeper.Drips.{DripFunder, Network, not_found, drip_amount}
use xcron_protocol.Keeper.DailyCap.{total_sent, total_sent_within}
use xcron_protocol.Scheduler.Environment.{Env}
use xcron_protocol.Scheduler.Intents.{Leaf, leaf_hash}
use xcron_protocol.Keeper.Leaves.{IsAppending, to_hash, pcit_leaf, to_hash-leaf_hash}
use xcron_protocol.Tests.Models.{env}

-- Session 7 of user 1, whose sweep has failed once.
abbrev stuck_session : PrivacySession
stuck_session = record {
  stealth_address = 7;
  user_address = 1;
  amount_dripped = 5;
  status = failed_sweep;
  retry_count = 1;
  created_at = 100;
}

abbrev waiting : PrivacySessionManager
waiting = record {
  sessions = (7, stuck_session) ∷ [];
  global_float_limit = 10;
  max_active_drips_per_user = 2;
  retry_queue = 7 ∷ [];
  max_retry_limit = 5;
}

abbrev never_sweeps : Sweeps
never_sweeps = record { has_wallet = λ a. true; sweeps = λ a. false }

abbrev no_wallets : Sweeps
no_wallets = record { has_wallet = λ a. false; sweeps = λ a. true }

abbrev six_passes : List Sweeps
six_passes =
    never_sweeps ∷ never_sweeps ∷ never_sweeps ∷ never_sweeps ∷ never_sweeps ∷ never_sweeps ∷ []

process_passes_empties_example : (process_passes six_passes waiting).retry_queue ≡ []
process_passes_empties_example =
    process_passes_empties six_passes waiting (λ b i. ground (arith, i)) (λ b. ground arith)
      (omega arith) (omega arith)

missing_key_counts_as_swept_example :
    (lookup 7 (process_retry_queue no_wallets waiting).sessions ≡ some (resolved stuck_session))
    × (contains 7 (process_retry_queue no_wallets waiting).retry_queue ≡ false)
missing_key_counts_as_swept_example =
    missing_key_counts_as_swept no_wallets 7 stuck_session waiting refl refl refl (omega arith)

abbrev empty_manager : PrivacySessionManager
empty_manager = record {
  sessions = [];
  global_float_limit = 10;
  max_active_drips_per_user = 2;
  retry_queue = [];
  max_retry_limit = 5;
}

abbrev with_session : PrivacySessionManager
with_session = record empty_manager {
  sessions = (7, record stuck_session { status = dripped; retry_count = 0 }) ∷ [];
}

authorized : authorize_session 100 1 7 5 empty_manager ≡ done with_session
unfolding authorize_session current_outstanding active_user_sessions
authorized = refl

empty-IsLimited : IsLimited empty_manager
empty-IsLimited = record {
  float_fits = omega arith;
  limit_fits = omega arith;
  users_fit = λ user. omega arith;
}

Reach-IsLimited_example : IsLimited with_session
Reach-IsLimited_example =
    Reach-IsLimited
      (next empty_manager with_session with_session
        (authorize 100 1 7 5 empty_manager with_session (omega arith) authorized)
        (here with_session))
      empty-IsLimited

abbrev funder : DripFunder
funder = record {
  activation_amount = codes "5";
  min_threshold = 3;
  max_daily_drip_cap = 12;
  daily_accumulator = 0;
  last_reset_timestamp = 1000;
}

abbrev working : Network
working = record { reply = not_found; nonce_fetched = true; signed = true; broadcast = true }

abbrev three_calls : List (ℕ × Network)
three_calls = (1001, working) ∷ (1002, working) ∷ (1003, working) ∷ []

funder_amount : drip_amount funder ≡ 5
unfolding drip_amount parse_u128 parse_digits
funder_amount = refl

total_sent_within_example : total_sent three_calls funder + 0 ≤ 12
total_sent_within_example =
    total_sent_within three_calls funder (refl, (refl, (refl, tt))) (omega (arith, funder_amount))
      (omega arith)

-- Encodings that extend the buffer.
abbrev appending : Env
appending = record env {
  encode_address = λ a b. b ++ be_bytes 32 a;
  encode_buffer = λ x b. b ++ x;
  encode_token = λ t b. b ++ (t ∷ []);
  encode_number = λ n b. b ++ (if ltb 0 n then n ∷ [] else []);
}

appending-IsAppending : IsAppending appending (λ n. n ∷ []) (λ t. t ∷ [])
appending-IsAppending = record {
  address_appended = λ a b. refl;
  buffer_appended = λ x b. refl;
  token_appended = λ t b. refl;
  number_appended = λ n b. refl;
}

abbrev swap_leaf : Leaf
swap_leaf = record {
  target_contract = 9;
  target_endpoint = codes "swap";
  target_args = (1 ∷ []) ∷ [];
  expected_token_out = 77;
  min_return = 40;
}

to_hash-leaf_hash_example :
    to_hash appending.sha256 (λ n. n ∷ []) (pcit_leaf (λ t. t ∷ []) swap_leaf)
    ≡ leaf_hash appending swap_leaf
to_hash-leaf_hash_example =
    to_hash-leaf_hash appending (λ n. n ∷ []) (λ t. t ∷ []) appending-IsAppending swap_leaf
