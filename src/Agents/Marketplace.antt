-- ===== src/Agents/Marketplace.antt =====
-- contracts/xcron-agent-shield/xcron-agent-marketplace/src/xcron_agent_marketplace.rs. `held` counts
-- the agent NFTs of each nonce that the contract holds.
use xcron_protocol.Prelude.{
  ℕ, ◌+◌, ◌-◌, ◌*◌, ◌/◌, Option, some, List, [], ◌∷◌, leb, ltb, ◌==◌, if◌then◌else◌, Dict, lookup,
  insert, erase, read,
}
use xcron_protocol.Framework.{
  Result, ok, err, after, ◌>>=◌, ◌>>◌, guard, or_abort, Address, TokenId, Ctx, Account, emit,
  direct_egld, receive, send_esdt, sub_big, non_payable, decode_error, insufficient_funds,
  invalid_nft, not_one_nft, invalid_apr, not_listed, not_seller, payment_mismatch,
}
use xcron_protocol.Agents.Types.{Payment}
use xcron_protocol.Agents.Reputation as Reputation
use xcron_protocol.Agents.Reputation.{evaluate_agent_fair_value}

pub record State : Type 0 where
  pub reputation_registry_address : Option Address
  pub treasury_address : Option Address
  pub agent_nft_token_id : Option TokenId
  pub listings : Dict Address
  pub listing_earnings : Dict ℕ
  pub listing_apr : Dict ℕ
  pub held : Dict ℕ
  pub account : Account

unfoldable init : Address → Address → TokenId → State → State
init reputation treasury token s = record s {
  reputation_registry_address = some reputation;
  treasury_address = some treasury;
  agent_nft_token_id = some token;
}

unfoldable pub upgrade : State → State
upgrade s = s

unfoldable pub list_agent : Ctx → Payment → ℕ → ℕ → State → Result State
list_agent c payment net_monthly_earnings apr s = do
  token ← or_abort s.agent_nft_token_id decode_error
  guard (payment.token_identifier == token) invalid_nft
  guard (payment.amount == 1) not_one_nft
  guard (ltb 0 apr) invalid_apr
  let nonce = payment.token_nonce
  ok (record s {
    listings = insert nonce c.caller s.listings;
    listing_earnings = insert nonce net_monthly_earnings s.listing_earnings;
    listing_apr = insert nonce apr s.listing_apr;
    held = insert nonce (read nonce s.held + 1) s.held;
  })

-- The transfer of one NFT that the contract holds.
unfoldable pub send_nft : Address → TokenId → ℕ → State → Result State
send_nft to token nonce s =
    if leb 1 (read nonce s.held)
    then ok (record s {
      held = insert nonce (read nonce s.held - 1) s.held;
      account = emit (send_esdt to token 1) s.account;
    })
    else err insufficient_funds

abbrev pub clear_listing : ℕ → State → State
clear_listing nonce s = record s {
  listings = erase nonce s.listings;
  listing_earnings = erase nonce s.listing_earnings;
  listing_apr = erase nonce s.listing_apr;
}

unfoldable pub cancel_listing : Ctx → ℕ → State → Result State
unfolding send_nft
cancel_listing c agent_nonce s = do
  non_payable c
  seller ← or_abort (lookup agent_nonce s.listings) not_listed
  guard (c.caller == seller) not_seller
  token ← or_abort s.agent_nft_token_id decode_error
  s1 ← send_nft seller token agent_nonce s
  ok (clear_listing agent_nonce s1)

abbrev pub five_percent : ℕ → ℕ
five_percent fair_value = fair_value * 5 / 100

-- A transfer of EGLD, where the amount is positive.
unfoldable pub pay_if_positive : Address → ℕ → Account → Result Account
pay_if_positive to amount a = if ltb 0 amount then direct_egld to amount a else ok a

module _ {S : Type 0} (scores : Reputation.State S) where
  unfoldable pub buy_agent : Ctx → ℕ → State → Result State
  unfolding send_nft pay_if_positive
  buy_agent c agent_nonce s = do
    seller ← or_abort (lookup agent_nonce s.listings) not_listed
    fair_value ←
        evaluate_agent_fair_value agent_nonce (read agent_nonce s.listing_earnings)
          (read agent_nonce s.listing_apr) scores
    guard (c.egld == fair_value) payment_mismatch
    rest ← sub_big fair_value (five_percent fair_value)
    treasury ← or_abort s.treasury_address decode_error
    token ← or_abort s.agent_nft_token_id decode_error
    s1 ← send_nft c.caller token agent_nonce (record s { account = receive c s.account })
    a1 ← pay_if_positive seller rest s1.account
    a2 ← pay_if_positive treasury (five_percent fair_value) a1
    ok (clear_listing agent_nonce (record s1 { account = a2 }))

pub data Call : Type 0 where
  list_call : (payment : Payment) (earnings apr : ℕ) → Call
  cancel_call buy_call : (nonce : ℕ) → Call
  upgrade_call : Call

module _ {S : Type 0} where
  -- The reputation registry is as the call finds it.
  unfoldable pub dispatch : Reputation.State S → Ctx → Call → State → Result State
  dispatch scores c (list_call payment earnings apr) s = list_agent c payment earnings apr s
  dispatch scores c (cancel_call nonce) s = cancel_listing c nonce s
  dispatch scores c (buy_call nonce) s = buy_agent scores c nonce s
  dispatch scores c upgrade_call s = ok (upgrade s)

  unfoldable pub run : List (Reputation.State S × (Ctx × Call)) → State → State
  run [] s = s
  run ((scores, (c, call)) ∷ calls) s = run calls (after s (dispatch scores c call s))
