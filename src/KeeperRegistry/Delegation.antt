-- ===== src/KeeperRegistry/Delegation.antt =====
-- Delegation of the stakes to a staking provider: contracts/keeper-registry/src/lib.rs,
-- `delegate_stake` to `sweep_slashed_debt`. The provider is another contract: what a call of it does
-- to this contract's EGLD is a parameter.
use xcron_protocol.Prelude.{ℕ, ◌+◌, ◌-◌, not, leb, ltb, if◌then◌else◌, erase, read}
use xcron_protocol.Framework.{
  Result, ok, ◌>>=◌, ◌>>◌, guard, or_abort, Address, Ctx, Account, non_payable, require_owner,
  direct_egld, is_zero, decode_error, provider_not_set, insufficient_liquidity, claim_lost_funds,
  no_debt,
}
use xcron_protocol.KeeperRegistry.State.{State}

-- The effect of each synchronous call on the account, or its failure.
pub record Provider : Type 0 where
  pub delegate : ℕ → Account → Result Account
  pub undelegate : ℕ → Account → Result Account
  pub claim_rewards : Account → Result Account
  pub withdraw : Account → Result Account

-- The yield goes to the treasury, if there is any.
unfoldable pub forward_yield : {S : Type 0} → ℕ → State S → Result (State S)
forward_yield amount s =
    if ltb 0 amount
    then (do
      treasury ← or_abort s.treasury_addr decode_error
      account ← if is_zero treasury then ok s.account else direct_egld treasury amount s.account
      ok (record s { account = account }))
    else ok s

module _ {S : Type 0} (p : Provider) where
  abbrev require_provider : State S → Result (Unit {0})
  require_provider s = do
    provider ← or_abort s.staking_provider_addr decode_error
    guard (not (is_zero provider)) provider_not_set

  unfoldable pub delegate_stake : Ctx → ℕ → State S → Result (State S)
  delegate_stake c amount s = do
    require_owner c
    non_payable c
    require_provider s
    let balance = s.account.balance
    let committed = s.total_committed_cooldown_egld
    let delegable = if ltb committed balance then balance - committed else 0
    guard (leb amount delegable) insufficient_liquidity
    account ← p.delegate amount (record s.account { balance = balance - amount })
    ok (record s { account = account })

  unfoldable pub undelegate_stake : Ctx → ℕ → State S → Result (State S)
  undelegate_stake c amount s = do
    require_owner c
    non_payable c
    require_provider s
    account ← p.undelegate amount s.account
    ok (record s { account = account })

  unfoldable pub claim_provider_rewards : Ctx → State S → Result (State S)
  unfolding forward_yield
  claim_provider_rewards c s = do
    require_owner c
    non_payable c
    require_provider s
    account ← p.claim_rewards s.account
    guard (leb s.account.balance account.balance) claim_lost_funds
    let yield_generated = account.balance - s.account.balance
    let claimed = record s {
      account = account;
      total_yield_generated = s.total_yield_generated + yield_generated;
    }
    forward_yield yield_generated claimed

  unfoldable pub withdraw_provider_stake : Ctx → State S → Result (State S)
  withdraw_provider_stake c s = do
    require_owner c
    non_payable c
    require_provider s
    account ← p.withdraw s.account
    ok (record s { account = account })

unfoldable pub sweep_slashed_debt : {S : Type 0} → Ctx → Address → State S → Result (State S)
sweep_slashed_debt c keeper s = do
  require_owner c
  non_payable c
  let debt = read keeper s.slashed_pending_unbond
  guard (ltb 0 debt) no_debt
  treasury ← or_abort s.treasury_addr decode_error
  account ← direct_egld treasury debt s.account
  ok (record s {
    account = account;
    slashed_pending_unbond = erase keeper s.slashed_pending_unbond;
  })
