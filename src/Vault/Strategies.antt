-- ===== src/Vault/Strategies.antt =====
-- contracts/vault/src/lib.rs: the automation endpoints, `compound` to `mint_callback`.
use xcron_protocol.Prelude.{
  ℕ, ◌+◌, ◌-◌, ◌*◌, ◌/◌, ◌^◌, Bool, not, ◌&&◌, List, [], ◌∷◌, leb, ltb, ◌==◌, is_some,
  if◌then◌else◌, codes,
}
use xcron_protocol.Framework.{
  Result, ok, ◌>>=◌, ◌>>◌, guard, or_abort, Address, Ctx, receive, non_payable, register_promise,
  u64, decode_error, no_swap_config, slippage_not_set, no_mint_config, unsafe_mint,
}
use xcron_protocol.Vault.State.{State, require_not_paused, require_scheduler_caller, safe_liquid}

-- A call of the staking provider that carries no EGLD.
unfoldable pub call_provider : Ctx → List ℕ → State → Result State
call_provider c endpoint s = do
  non_payable c
  require_not_paused s
  require_scheduler_caller c s
  delegation_addr ← or_abort s.delegation_contract decode_error
  account ← register_promise delegation_addr endpoint [] 0 s.account
  ok (record s { account = account })

unfoldable pub compound : Ctx → State → Result State
unfolding call_provider
compound c s = call_provider c (codes "reDelegateRewards") s

unfoldable pub compound_callback : Ctx → Bool → State → Result State
compound_callback c success s =
    let s1 = record s { account = receive c s.account } in
    if success then ok (record s1 { compound_count = u64 (s.compound_count + 1) }) else ok s1

unfoldable pub claim_rewards : Ctx → State → Result State
unfolding call_provider
claim_rewards c s = call_provider c (codes "claimRewards") s

-- The callbacks of the other strategies emit an event at most.
unfoldable pub event_callback : Ctx → State → Result State
event_callback c s = ok (record s { account = receive c s.account })

-- The configured amount, if it is set and below what is safe to spend; else all that is safe.
abbrev swap_amount : State → ℕ
swap_amount s =
    let configured = s.swap_amount_per_execution in
    let safe = safe_liquid s in if ltb 0 configured && ltb configured safe then configured else safe

abbrev min_out : ℕ → ℕ → ℕ
min_out amount slippage_bps = amount * u64 (10000 + (2 ^ 64 - slippage_bps)) / 10000

-- The call of the DEX, where there is anything to swap.
unfoldable pub send_swap : Address → ℕ → State → Result State
send_swap dex_addr amount s =
    if ltb 0 amount
    then (do
      account ←
          register_promise dex_addr (codes "swapTokensFixedInput")
            (min_out amount s.max_slippage_bps ∷ []) amount s.account
      ok (record s { account = account }))
    else ok s

-- A slot that holds 0 counts as empty.
unfoldable pub swap : Ctx → State → Result State
unfolding send_swap
swap c s = do
  non_payable c
  require_not_paused s
  require_scheduler_caller c s
  guard (is_some s.dex_pair_contract) no_swap_config
  guard (not (s.max_slippage_bps == 0)) slippage_not_set
  dex_addr ← or_abort s.dex_pair_contract decode_error
  send_swap dex_addr (swap_amount s) s

-- The body repeats that of `swap`.
unfoldable pub emergency_swap : Ctx → State → Result State
unfolding send_swap
emergency_swap c s = do
  non_payable c
  require_not_paused s
  require_scheduler_caller c s
  guard (is_some s.dex_pair_contract) no_swap_config
  guard (not (s.max_slippage_bps == 0)) slippage_not_set
  dex_addr ← or_abort s.dex_pair_contract decode_error
  send_swap dex_addr (swap_amount s) s

unfoldable pub mint : Ctx → State → Result State
mint c s = do
  non_payable c
  require_not_paused s
  require_scheduler_caller c s
  guard (is_some s.nft_contract) no_mint_config
  nft_addr ← or_abort s.nft_contract decode_error
  guard (leb s.mint_price (safe_liquid s)) unsafe_mint
  account ← register_promise nft_addr s.mint_endpoint_name (1 ∷ []) s.mint_price s.account
  ok (record s { account = account })
