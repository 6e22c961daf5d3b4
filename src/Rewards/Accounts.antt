-- ===== src/Rewards/Accounts.antt =====
-- The accounts of the Rewards contract: every unit of the fees belongs to the treasury or a keeper.
use xcron_protocol.Prelude.{
  ℕ, ◌+◌, ◌-◌, ◌≤◌, ◌<◌, ◌≡◌, true, false, ◌||◌, ◌==◌, List, [], ◌∷◌, arith, read, Distinct,
  Distinct-insert, Distinct-erase, total, total-insert, total-erase, share-le-total, id_ℕ,
  read-share, read-insert, read-erase, if◌then◌else◌,
}
use xcron_protocol.Framework.{
  err, Address, Ctx, SetMapper, contains, Ensures, Returns, after, direct_egld, send_egld,
  underflow,
}
use xcron_protocol.Common.{bps_le}
use xcron_protocol.Rewards.Contract.{
  State, Call, claim, receive_fee, pause, unpause, upgrade, withdraw_treasury, claim_rewards,
  set_treasury_split_bps, set_keeper_registry_addr, treasury_cut, receive_execution_fee,
  add_authorized_scheduler, remove_authorized_scheduler, dispatch, run, init,
}

module _ {S : Type 0} where
  -- The balance is what the treasury and the keepers are owed, to the unit.
  pub record IsBalanced (s : State S) : Type 0 where
    pub distinct : Distinct s.pending_rewards
    pub balanced : s.treasury_balance + total id_ℕ s.pending_rewards ≡ s.account.balance

module _ {S : Type 0} ⦃sets : SetMapper S⦄ where
  receive_execution_fee-IsBalanced :
      (c : Ctx) (keeper : Address) (s : State S)
      → IsBalanced s
      → Ensures IsBalanced (receive_execution_fee c keeper s)
  unfolding receive_execution_fee
  receive_execution_fee-IsBalanced c keeper s h =
      let n = read keeper s.pending_rewards + (c.egld - treasury_cut c.egld s.treasury_split_bps) in
      ground (
        arith,
        Distinct-insert keeper n s.pending_rewards h.distinct,
        total-insert id_ℕ keeper n s.pending_rewards,
        read-share keeper s.pending_rewards,
      )

  claim_rewards-IsBalanced :
      (c : Ctx) (s : State S) → IsBalanced s → Ensures IsBalanced (claim_rewards c s)
  unfolding claim_rewards direct_egld
  claim_rewards-IsBalanced c s h = ground (
    arith,
    Distinct-erase c.caller s.pending_rewards h.distinct,
    total-erase id_ℕ c.caller s.pending_rewards h.distinct,
    read-share c.caller s.pending_rewards,
  )

  dispatch-IsBalanced :
      (c : Ctx) (call : Call) (s : State S) → IsBalanced s → Ensures IsBalanced (dispatch c call s)
  unfolding dispatch pause unpause upgrade withdraw_treasury set_treasury_split_bps direct_egld
      set_keeper_registry_addr add_authorized_scheduler remove_authorized_scheduler
  dispatch-IsBalanced c (receive_fee keeper) s h = receive_execution_fee-IsBalanced c keeper s h
  dispatch-IsBalanced c claim s h = claim_rewards-IsBalanced c s h
  dispatch-IsBalanced c _ s h = ground arith

  -- After any sequence of transactions the contract's EGLD is exactly the treasury's balance and the
  -- sum of the pending rewards, if it was before: no fee is lost, and none is counted twice.
  pub run-IsBalanced :
      (calls : List (Ctx × Call)) (s : State S) → IsBalanced s → IsBalanced (run calls s)
  unfolding run
  run-IsBalanced [] s h = h
  run-IsBalanced ((c, call) ∷ calls) s h =
      run-IsBalanced calls (after s (dispatch c call s))
        (ground (arith, dispatch-IsBalanced c call s h))

  -- A fee from an authorized caller is split without loss while the split is at most 100%: the
  -- treasury takes the rounded-down share and the keeper's pending reward the rest.
  pub receive_execution_fee_splits :
      (c : Ctx) (keeper : Address) (s : State S)
      → (contains c.caller s.authorized_schedulers || c.caller == c.owner) ≡ true
      → s.treasury_split_bps ≤ 10000
      → Returns
          (λ s'.
            (s'.treasury_balance ≡ s.treasury_balance + treasury_cut c.egld s.treasury_split_bps)
            × (s'.treasury_balance + read keeper s'.pending_rewards
                ≡ s.treasury_balance + read keeper s.pending_rewards + c.egld)
            × (s'.account.balance ≡ s.account.balance + c.egld))
          (receive_execution_fee c keeper s)
  unfolding receive_execution_fee
  receive_execution_fee_splits c keeper s auth cap =
      let cut = treasury_cut c.egld s.treasury_split_bps in
      ground (
        arith,
        bps_le c.egld s.treasury_split_bps cap,
        read-insert keeper keeper (read keeper s.pending_rewards + (c.egld - cut))
            s.pending_rewards,
      )

  -- In balanced accounts every keeper with a pending reward can claim it while the contract is not
  -- paused: it is paid in full, nothing stays pending for it, and no other account changes.
  pub claim_rewards_pays :
      (c : Ctx) (keeper : Address) (s : State S)
      → IsBalanced s
      → (c.egld ≡ 0) × (s.paused ≡ false)
      → 0 < read c.caller s.pending_rewards
      → Returns
          (λ s'.
            (read keeper s'.pending_rewards
              ≡ (if c.caller == keeper then 0 else read keeper s.pending_rewards))
            × (s'.treasury_balance ≡ s.treasury_balance)
            × (s'.account.outbox
                ≡ send_egld c.caller (read c.caller s.pending_rewards) ∷ s.account.outbox))
          (claim_rewards c s)
  unfolding claim_rewards direct_egld
  claim_rewards_pays c keeper s h free due = ground (
    arith,
    read-erase c.caller keeper s.pending_rewards,
    read-share c.caller s.pending_rewards,
    share-le-total id_ℕ c.caller s.pending_rewards,
  )

  -- `init` takes a split above 100%. Every fee that is large enough to tell is refused from then on.
  pub init_split_blocks_fees :
      (c : Ctx) (registry keeper : Address) (split : ℕ) (s : State S)
      → c.caller ≡ c.owner
      → c.egld < treasury_cut c.egld split
      → receive_execution_fee c keeper (init registry split s) ≡ err underflow
  unfolding receive_execution_fee init
  init_split_blocks_fees c registry keeper split s own over = ground arith
