-- ===== src/Scheduler/Config.antt =====
-- Owner configuration and administration: contracts/scheduler/src/config.rs and admin.rs.
use xcron_protocol.Prelude.{
  ℕ, zero, suc, ◌+◌, ◌-◌, true, false, ◌||◌, some, leb, ltb, ◌==◌, if◌then◌else◌, insert,
}
use xcron_protocol.Framework.{
  Result, ok, ◌>>=◌, ◌>>◌, guard, or_abort, Address, Ctx, SetMapper, VecMapper, contains,
  insert_item, swap_remove, non_payable, require_owner, decode_error, fee_exceeds_100,
  keeper_list_too_large, no_fees_to_flush, not_authorized, insufficient_funds, call_receive_fee,
  emit,
}
use xcron_protocol.Common.{bps_denominator}
use xcron_protocol.Scheduler.State.{State, require_registered_keeper}

module _ {S V : Type 0} where
  unfoldable pub pause : Ctx → State S V → Result (State S V)
  pause c s = do require_owner c; ok (record s { paused = true })

  unfoldable pub unpause : Ctx → State S V → Result (State S V)
  unpause c s = do require_owner c; ok (record s { paused = false })

  unfoldable pub set_min_deposit : Ctx → ℕ → State S V → Result (State S V)
  set_min_deposit c value s = do require_owner c; ok (record s { min_deposit = value })

  unfoldable pub set_protocol_fee_bps : Ctx → ℕ → State S V → Result (State S V)
  set_protocol_fee_bps c value s = do
    require_owner c
    guard (leb value bps_denominator) fee_exceeds_100
    ok (record s { protocol_fee_bps = value })

  unfoldable pub set_reveal_window : Ctx → ℕ → State S V → Result (State S V)
  set_reveal_window c value s = do require_owner c; ok (record s { reveal_window = value })

  unfoldable pub set_commit_bond : Ctx → ℕ → State S V → Result (State S V)
  set_commit_bond c value s = do require_owner c; ok (record s { commit_bond = value })

  unfoldable pub set_keeper_registry_addr : Ctx → Address → State S V → Result (State S V)
  set_keeper_registry_addr c addr s = do
    require_owner c
    ok (record s { keeper_registry_addr = some addr })

  unfoldable pub set_rewards_addr : Ctx → Address → State S V → Result (State S V)
  set_rewards_addr c addr s = do require_owner c; ok (record s { rewards_addr = some addr })

  unfoldable pub set_xwap_address : Ctx → Address → State S V → Result (State S V)
  set_xwap_address c addr s = do require_owner c; ok (record s { xwap_address = some addr })

  unfoldable pub set_xsc_address : Ctx → Address → State S V → Result (State S V)
  set_xsc_address c addr s = do require_owner c; ok (record s { xsc_address = some addr })

  unfoldable pub set_zk_verifier_addr : Ctx → Address → State S V → Result (State S V)
  set_zk_verifier_addr c addr s = do require_owner c; ok (record s { zk_verifier_addr = some addr })

  unfoldable pub set_max_reward_per_exec : Ctx → ℕ → State S V → Result (State S V)
  set_max_reward_per_exec c value s = do
    require_owner c
    ok (record s { max_reward_per_exec = value })

  unfoldable pub set_max_exec_value : Ctx → ℕ → State S V → Result (State S V)
  set_max_exec_value c value s = do require_owner c; ok (record s { max_exec_value_egld = value })

module _ {V : Type 0} ⦃vecs : VecMapper V⦄ where
  unfoldable pub clear_last : ℕ → V → Result V
  clear_last i list =
      let n = vecs.vec_len list in
      if ltb i n
      then (do
        last ← or_abort (vecs.get_item n list) decode_error
        ok (vecs.clear_entry n (vecs.set_item i last list)))
      else ok (vecs.clear_entry n list)

  -- The scan of `remove_whitelisted_keeper` from index `i` on, with `rest` indices left to look at.
  -- The last entry takes the place of the keeper, and its slot is cleared.
  unfoldable pub scan_and_clear : ℕ → ℕ → Address → V → Result V
  unfolding clear_last
  scan_and_clear zero i keeper list = ok list
  scan_and_clear (suc rest) i keeper list =
      let later = scan_and_clear rest (i + 1) keeper list in
      do
        item ← or_abort (vecs.get_item i list) decode_error
        if item == keeper then clear_last i list else later

module _ {S V : Type 0} ⦃sets : SetMapper S⦄ where
  unfoldable pub blacklist_target : Ctx → Address → State S V → Result (State S V)
  blacklist_target c target s = do
    require_owner c
    ok (record s { target_blacklist = insert_item target s.target_blacklist })

  unfoldable pub remove_blacklist : Ctx → Address → State S V → Result (State S V)
  remove_blacklist c target s = do
    require_owner c
    ok (record s { target_blacklist = swap_remove target s.target_blacklist })

  -- `shard_of` is the chain's map from addresses to shards.
  unfoldable pub register_keeper_shard : (Address → ℕ) → Ctx → State S V → Result (State S V)
  register_keeper_shard shard_of c s = do
    require_registered_keeper c.caller s
    ok (record s { keeper_shard = insert c.caller (shard_of c.caller) s.keeper_shard })

  -- The accrued fees leave with a call of `receiveExecutionFee` of the Rewards contract.
  unfoldable pub flush_protocol_fees : Ctx → State S V → Result (State S V)
  flush_protocol_fees c s = do
    non_payable c
    guard (contains c.caller s.whitelisted_keepers || c.caller == c.owner) not_authorized
    let accrued = s.accrued_protocol_fees
    guard (ltb 0 accrued) no_fees_to_flush
    rewards ← or_abort s.rewards_addr decode_error
    guard (leb accrued s.account.balance) insufficient_funds
    ok (record s {
      accrued_protocol_fees = 0;
      account =
          emit (call_receive_fee rewards c.caller accrued)
            (record s.account { balance = s.account.balance - accrued });
    })

module _ {S V : Type 0} ⦃sets : SetMapper S⦄ ⦃vecs : VecMapper V⦄ where
  -- Setting the counter to 0 where it is empty changes nothing.
  unfoldable pub add_whitelisted_keeper : Ctx → Address → State S V → Result (State S V)
  add_whitelisted_keeper c keeper s = do
    require_owner c
    ok (record s {
      whitelisted_keepers = insert_item keeper s.whitelisted_keepers;
      keeper_list = vecs.push keeper s.keeper_list;
    })

  unfoldable pub remove_whitelisted_keeper : Ctx → Address → State S V → Result (State S V)
  unfolding scan_and_clear clear_last
  remove_whitelisted_keeper c keeper s = do
    require_owner c
    let n = vecs.vec_len s.keeper_list
    guard (leb n 50) keeper_list_too_large
    list ← scan_and_clear n 1 keeper s.keeper_list
    ok (record s {
      whitelisted_keepers = swap_remove keeper s.whitelisted_keepers;
      keeper_list = list;
    })
