-- ===== src/HftVault.antt =====
-- contracts/xcron-hft-vault/src/xcron_hft_vault.rs: circular arbitrage through two pools. The pools are
-- other contracts, and a parameter: what a synchronous call sends back, and the vault's tokens after it.
use xcron_protocol.Prelude.{
  ℕ, ◌+◌, ◌-◌, Bool, true, false, not, ◌||◌, Option, none, some, List, [], ◌∷◌, leb, ltb, ◌==◌,
  if◌then◌else◌, Dict, insert, read, codes, ◌≤◌, ◌<◌, arith,
}
use xcron_protocol.Framework.{
  Result, ok, ◌>>=◌, ◌>>◌, guard, or_abort, Address, TokenId, Ctx, Account, require_owner, receive,
  emit, send_esdt, Ensures, decode_error, insufficient_funds, hft_paused, not_bot, vault_liquidity,
  no_balance, pool_empty, no_mid_token, zero_mid, not_profitable, below_min_profit,
}
use xcron_protocol.Common.{Buffer}

pub record State : Type 0 where
  pub is_paused : Bool
  pub authorized_bot : Option Address
  pub tokens : Dict ℕ
  pub account : Account

unfoldable init : Address → State → State
init bot_address s = record s { authorized_bot = some bot_address; is_paused = false }

unfoldable upgrade : State → State
upgrade s = s

unfoldable pause : Ctx → State → Result State
pause c s = do require_owner c; ok (record s { is_paused = true })

unfoldable unpause : Ctx → State → Result State
unpause c s = do require_owner c; ok (record s { is_paused = false })

unfoldable set_authorized_bot : Ctx → Address → State → Result State
set_authorized_bot c new_bot s = do require_owner c; ok (record s { authorized_bot = some new_bot })

abbrev credit_all : List (TokenId × ℕ) → Dict ℕ → Dict ℕ
credit_all [] d = d
credit_all ((t, n) ∷ ps) d = credit_all ps (insert t (read t d + n) d)

unfoldable deposit : Ctx → State → State
deposit c s = record s { tokens = credit_all c.esdt s.tokens; account = receive c s.account }

unfoldable withdraw : Ctx → TokenId → ℕ → State → Result State
withdraw c token amount s = do
  require_owner c
  guard (leb amount (read token s.tokens)) insufficient_funds
  ok (record s {
    tokens = insert token (read token s.tokens - amount) s.tokens;
    account = emit (send_esdt c.caller token amount) s.account;
  })

unfoldable withdraw_all : Ctx → TokenId → State → Result State
withdraw_all c token s = do
  require_owner c
  let balance = read token s.tokens
  guard (ltb 0 balance) no_balance
  ok (record s {
    tokens = insert token 0 s.tokens;
    account = emit (send_esdt c.caller token balance) s.account;
  })

-- A call of an endpoint of a pool with a payment, for another token and at least so much of it.
abbrev Pools : Type 0
Pools = Address → Buffer → TokenId × ℕ → TokenId × ℕ → Dict ℕ → Result (List (TokenId × ℕ) × Dict ℕ)

-- The first payment in a token.
abbrev find_payment : TokenId → List (TokenId × ℕ) → Option ℕ
find_payment token [] = none
find_payment token ((t, n) ∷ ps) = if t == token then some n else find_payment token ps

abbrev is_nonempty : List (TokenId × ℕ) → Bool
is_nonempty [] = false
is_nonempty (p ∷ ps) = true

-- The final checks, on the balances before and after.
abbrev require_profit : ℕ → ℕ → ℕ → ℕ → Result (Unit {0})
require_profit balance_start balance_end amount_in min_final_amount = do
  guard (ltb balance_start balance_end) not_profitable
  guard (leb (balance_start - amount_in + min_final_amount) balance_end) below_min_profit

module _ (pools : Pools) where
  unfoldable execute_flash_arbitrage :
      Ctx → TokenId → ℕ → Address → TokenId → Address → ℕ → ℕ → Buffer → State → Result State
  execute_flash_arbitrage c token_in amount_in pool_a token_mid pool_b min_mid min_final endpoint_b
        s =
      do
        guard (not s.is_paused) hft_paused
        bot ← or_abort s.authorized_bot decode_error
        guard (c.caller == bot || c.caller == c.owner) not_bot
        let balance_start = read token_in s.tokens
        guard (leb amount_in balance_start) vault_liquidity
        step1 ←
            pools pool_a (codes "swapTokensFixedInput") (token_in, amount_in) (token_mid, min_mid)
              s.tokens
        guard (is_nonempty step1.0) pool_empty
        mid ← or_abort (find_payment token_mid step1.0) no_mid_token
        guard (ltb 0 mid) zero_mid
        step2 ← pools pool_b endpoint_b (token_mid, mid) (token_in, min_final) step1.1
        guard (is_nonempty step2.0) pool_empty
        require_profit balance_start (read token_in step2.1) amount_in min_final
        ok (record s { tokens = step2.1 })

unfoldable get_balance : TokenId → State → ℕ
get_balance token s = read token s.tokens

module _ (pools : Pools) where
  -- An arbitrage that goes through ends with more of the token than it began with, and with at least
  -- the final amount that was asked for on top of what did not take part.
  execute_flash_arbitrage_profits :
      (c : Ctx) (token_in : TokenId) (amount_in : ℕ) (pool_a : Address) (token_mid : TokenId)
      (pool_b : Address) (min_mid min_final : ℕ) (endpoint_b : Buffer) (s : State)
      → Ensures
          (λ s'.
            (read token_in s.tokens < read token_in s'.tokens)
            × (read token_in s.tokens + min_final ≤ read token_in s'.tokens + amount_in))
          (execute_flash_arbitrage pools c token_in amount_in pool_a token_mid pool_b min_mid
            min_final endpoint_b s)
  unfolding execute_flash_arbitrage
  execute_flash_arbitrage_profits c token_in amount_in pool_a token_mid pool_b min_mid min_final
        endpoint_b s =
      ground arith
