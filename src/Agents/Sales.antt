-- ===== src/Agents/Sales.antt =====
-- Listings are backed by NFTs, and sales are paid in full.
use xcron_protocol.Prelude.{ℕ, ◌-◌, ◌≤◌, ◌≡◌, none, ◌∷◌, ◌⊎◌, lookup, read}
use xcron_protocol.Framework.{Address, TokenId, Ctx, send_esdt, send_egld}
use xcron_protocol.Agents.Reputation as Reputation
use xcron_protocol.Agents.Marketplace.{State, five_percent}

-- A nonce is not listed, or the contract holds an NFT of it.
abbrev IsBacked : ℕ → State → Type 0
IsBacked nonce s = (lookup nonce s.listings ≡ none) ⊎ (1 ≤ read nonce s.held)

-- The state after a sale: what is paid, to whom, and what is left.
abbrev pub IsSold : Ctx → ℕ → Address → Address → TokenId → State → State → Type 0
IsSold c k seller treasury token s s' =
    (lookup k s'.listings ≡ none)
    × (s'.account.balance ≡ s.account.balance)
    × (s'.account.outbox
        ≡ send_egld treasury (five_percent c.egld)
          ∷ send_egld seller (c.egld - five_percent c.egld)
          ∷ send_esdt c.caller token 1
          ∷ s.account.outbox)
