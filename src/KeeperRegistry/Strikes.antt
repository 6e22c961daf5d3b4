-- ===== src/KeeperRegistry/Strikes.antt =====
-- Progressive slashing: what each strike costs, and who survives it.
use xcron_protocol.Prelude.{
  ℕ, ◌+◌, ◌*◌, ◌/◌, ◌≤◌, ◌≡◌, true, false, none, some, ◌∷◌, arith, lookup, ◌==◌, ◌||◌,
  lookup-insert,
}
use xcron_protocol.Framework.{
  err, Address, Ctx, SetMapper, contains, Returns, u64, send_egld, direct_egld, decode_error,
}
use xcron_protocol.Common.{KeeperInfo}
use xcron_protocol.KeeperRegistry.State.{State}
use xcron_protocol.KeeperRegistry.Slashing.{
  record_execution, record_failure, settle_slash, slash_amount, strike_bps, failure_of,
}

-- A slash never takes more than the stake.
pub slash_amount_le : (stake bps : ℕ) → slash_amount stake bps ≤ stake
unfolding slash_amount
slash_amount_le stake bps = ground arith

slash_first : (stake : ℕ) → slash_amount stake (strike_bps 1) ≡ stake * 500 / 10000
unfolding slash_amount strike_bps
slash_first stake = ground arith

slash_second : (stake : ℕ) → slash_amount stake (strike_bps 2) ≡ stake * 1500 / 10000
unfolding slash_amount strike_bps
slash_second stake = ground arith

-- A keeper with no failure in a row whose stake is at least the minimum is still active after one
-- failure and after a second: their slashes of 5% and 15% leave it above the maintenance margin of
-- 75%. The third failure in a row expels it, whatever its stake.
pub failure_of_strikes :
    (info : KeeperInfo) (min_stake : ℕ)
    → info.active ≡ true
    → info.consecutive_failures ≡ 0
    → min_stake ≤ info.stake
    → let first = failure_of info min_stake in
      let second = failure_of first min_stake in
      (first.active ≡ true)
      × (second.active ≡ true)
      × ((failure_of second min_stake).active ≡ false)
unfolding slash_amount strike_bps
failure_of_strikes info min_stake a z m = ground arith

module _ {S : Type 0} ⦃sets : SetMapper S⦄ where
  -- A failure accounts for each unit of the stake: what the record loses is added to its slashed
  -- amount, and sent to the treasury while there is no staking provider, out of a balance that
  -- covers the stake.
  pub record_execution_slashes :
      (c : Ctx) (keeper treasury : Address) (info : KeeperInfo) (s : State S)
      → c.egld ≡ 0
      → (contains c.caller s.authorized_callers || c.caller == c.owner) ≡ true
      → lookup keeper s.keepers ≡ some info
      → s.treasury_addr ≡ some treasury
      → s.staking_provider_addr ≡ some 0
      → info.stake ≤ s.account.balance
      → let amount = slash_amount info.stake (strike_bps (u64 (info.consecutive_failures + 1))) in
        Returns
          (λ s'.
            (lookup keeper s'.keepers ≡ some (failure_of info s.min_stake))
            × ((failure_of info s.min_stake).stake + amount ≡ info.stake)
            × ((failure_of info s.min_stake).slashed_amount ≡ info.slashed_amount + amount)
            × (s'.account.balance + amount ≡ s.account.balance)
            × (s'.account.outbox ≡ send_egld treasury amount ∷ s.account.outbox))
          (record_execution c keeper false s)
  unfolding record_execution record_failure settle_slash direct_egld
  record_execution_slashes c keeper treasury info s free own e te pe cover = ground (
    arith,
    slash_amount_le info.stake (strike_bps (u64 (info.consecutive_failures + 1))),
    lookup-insert keeper keeper (failure_of info s.min_stake) s.keepers,
  )

  -- Until the owner has set a staking provider no failure can be recorded: the call aborts where it
  -- reads the provider's address, so no strike is counted and nothing is slashed.
  pub record_execution_without_provider :
      (c : Ctx) (keeper treasury : Address) (info : KeeperInfo) (s : State S)
      → c.egld ≡ 0
      → (contains c.caller s.authorized_callers || c.caller == c.owner) ≡ true
      → lookup keeper s.keepers ≡ some info
      → s.treasury_addr ≡ some treasury
      → s.staking_provider_addr ≡ none
      → record_execution c keeper false s ≡ err decode_error
  unfolding record_execution record_failure
  record_execution_without_provider c keeper treasury info s free own e te pe = ground arith
