-- ===== src/Vault/Calls.antt =====
-- Every endpoint and callback of the vault, and sequences of transactions.
use xcron_protocol.Prelude.{ℕ, Bool, List, [], ◌∷◌}
use xcron_protocol.Framework.{Result, ok, after, Address, Ctx}
use xcron_protocol.Vault.State.{
  State, upgrade, pause, unpause, rescue_yield, set_scheduler_address, set_delegation_contract,
  set_dex_pair_contract, set_swap_amount, set_nft_contract, set_mint_price, set_mint_endpoint,
  set_max_slippage_bps,
}
use xcron_protocol.Vault.Savings.{
  deposit, deposit_callback, withdraw, withdraw_callback, claim_unbonded, withdraw_unbonded,
}
use xcron_protocol.Vault.Strategies.{
  compound, compound_callback, claim_rewards, event_callback, swap, emergency_swap, mint,
}

pub data Call : Type 0 where
  deposit_call withdraw_unbonded_call claim_unbonded_call : Call
  withdraw_call rescue_call swap_amount_call mint_price_call slippage_call : (amount : ℕ) → Call
  deposit_result withdraw_result : (caller : Address) (amount : ℕ) (success : Bool) → Call
  compound_call claim_call swap_call emergency_call mint_call : Call
  compound_result : (success : Bool) → Call
  other_result pause_call unpause_call upgrade_call : Call
  scheduler_call delegation_call dex_call nft_call : (addr : Address) → Call
  mint_endpoint_call : (endpoint : List ℕ) → Call

unfoldable pub dispatch : Ctx → Call → State → Result State
dispatch c deposit_call s = deposit c s
dispatch c withdraw_unbonded_call s = withdraw_unbonded c s
dispatch c claim_unbonded_call s = claim_unbonded c s
dispatch c (withdraw_call amount) s = withdraw c amount s
dispatch c (rescue_call amount) s = rescue_yield c amount s
dispatch c (swap_amount_call amount) s = set_swap_amount c amount s
dispatch c (mint_price_call amount) s = set_mint_price c amount s
dispatch c (slippage_call amount) s = set_max_slippage_bps c amount s
dispatch c (deposit_result caller amount success) s = deposit_callback c caller amount success s
dispatch c (withdraw_result caller amount success) s = withdraw_callback c caller amount success s
dispatch c compound_call s = compound c s
dispatch c claim_call s = claim_rewards c s
dispatch c swap_call s = swap c s
dispatch c emergency_call s = emergency_swap c s
dispatch c mint_call s = mint c s
dispatch c (compound_result success) s = compound_callback c success s
dispatch c other_result s = event_callback c s
dispatch c pause_call s = pause c s
dispatch c unpause_call s = unpause c s
dispatch c upgrade_call s = ok (upgrade s)
dispatch c (scheduler_call addr) s = set_scheduler_address c addr s
dispatch c (delegation_call addr) s = set_delegation_contract c addr s
dispatch c (dex_call addr) s = set_dex_pair_contract c addr s
dispatch c (nft_call addr) s = set_nft_contract c addr s
dispatch c (mint_endpoint_call endpoint) s = set_mint_endpoint c endpoint s

unfoldable pub run : List (Ctx × Call) → State → State
run [] s = s
run ((c, call) ∷ calls) s = run calls (after s (dispatch c call s))
