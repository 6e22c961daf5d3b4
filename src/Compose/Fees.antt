-- ===== src/Compose/Fees.antt =====
-- Fees on their way from the Scheduler to the Rewards contract: `flushProtocolFees` of
-- contracts/scheduler and the call of `receiveExecutionFee` of contracts/rewards that it sends.
use xcron_protocol.Prelude.{
  ◌+◌, ◌-◌, ◌≤◌, ◌<◌, ◌≡◌, true, ◌||◌, if◌then◌else◌, ◌==◌, some, List, ◌∷◌, arith, read,
  read-insert,
}
use xcron_protocol.Common.{bps_le}
use xcron_protocol.Framework.{
  Address, Ctx, SetMapper, Returns, contains, call_receive_fee, Result, err, Message, decode_error,
}
use xcron_protocol.Scheduler.State.{State}
use xcron_protocol.Scheduler.Config.{flush_protocol_fees}
use xcron_protocol.Rewards.Contract as Rewards
use xcron_protocol.Rewards.Contract.{receive_execution_fee, treasury_cut}

module _ {R : Type 0} ⦃rsets : SetMapper R⦄ where
  -- The latest message of the Scheduler arrives at the Rewards contract as a call, with the fees, if
  -- it is sent to that contract's address, `rewards`. `c` is the context there, but for what the
  -- message sets.
  unfoldable pub deliver :
      Ctx → Address → Address → List Message → Rewards.State R → Result (Rewards.State R)
  deliver c scheduler rewards (call_receive_fee to keeper amount ∷ sent) r =
      if to == rewards
      then receive_execution_fee
          (record c { caller = scheduler; self_addr = rewards; egld = amount }) keeper r
      else err decode_error
  deliver c scheduler rewards _ r = err decode_error

module _ {S V R : Type 0} ⦃sets : SetMapper S⦄ ⦃rsets : SetMapper R⦄ where
  -- When a keeper or the owner flushes the protocol's fees of a Scheduler whose balance covers them,
  -- without a payment, the call goes to the Rewards contract that the Scheduler is configured with and
  -- to no other address, and succeeds there if that contract knows the Scheduler and has a split of at
  -- most 100%: the fees that the Scheduler had accrued are what the treasury and the caller's pending
  -- reward grow by, and the EGLD of the two contracts together is what it was.
  pub flush_protocol_fees_conserves :
      (c c' : Ctx) (rewards : Address) (s : State S V) (r : Rewards.State R)
      → (c.egld ≡ 0) × (s.rewards_addr ≡ some rewards)
      → (contains c.caller s.whitelisted_keepers || c.caller == c.owner) ≡ true
      → (0 < s.accrued_protocol_fees) × (s.accrued_protocol_fees ≤ s.account.balance)
      → contains c.self_addr r.authorized_schedulers ≡ true
      → r.treasury_split_bps ≤ 10000
      → Returns
          (λ s'.
            Returns
              (λ r'.
                (s'.accrued_protocol_fees ≡ 0)
                × (r'.treasury_balance + read c.caller r'.pending_rewards
                    ≡ r.treasury_balance
                      + read c.caller r.pending_rewards
                      + s.accrued_protocol_fees)
                × (s'.account.balance + r'.account.balance ≡ s.account.balance + r.account.balance))
              (deliver c' c.self_addr rewards s'.account.outbox r))
          (flush_protocol_fees c s)
  unfolding flush_protocol_fees deliver receive_execution_fee
  flush_protocol_fees_conserves c c' rewards s r free allowed due known cap =
      let fees = s.accrued_protocol_fees in
      let cut = treasury_cut fees r.treasury_split_bps in
      ground (
        arith,
        free,
        allowed,
        due,
        known,
        bps_le fees r.treasury_split_bps cap,
        read-insert c.caller c.caller (read c.caller r.pending_rewards + (fees - cut))
            r.pending_rewards,
      )
