-- ===== src/Framework/Chain.antt =====
-- The context of a call, 64-bit arithmetic, and the EGLD that leaves the contract.
use xcron_protocol.Prelude.{
  ℕ, ◌+◌, ◌-◌, ◌%◌, ◌^◌, ◌≤◌, ◌≡◌, Bool, List, [], ◌∷◌, arith, leb, ◌==◌, if◌then◌else◌,
}
use xcron_protocol.Framework.Outcome.{
  Result, ok, err, guard, underflow, insufficient_funds, not_payable, only_owner,
}

-- Addresses, token identifiers and 32-byte hashes are numbers; 0 is the zero address.
abbrev pub Address : Type 0
Address = ℕ

abbrev pub TokenId : Type 0
TokenId = ℕ

abbrev pub Hash : Type 0
Hash = ℕ

-- `ManagedAddress::is_zero`
abbrev pub is_zero : Address → Bool
is_zero a = a == 0

-- The contracts are built with `overflow-checks = false`, so `u64` and `u32` wrap.
abbrev pub u64 : ℕ → ℕ
u64 n = n % 2 ^ 64

abbrev pub u32 : ℕ → ℕ
u32 n = n % 2 ^ 32

-- `a - b` on `BigUint` aborts below zero.
abbrev pub sub_big : ℕ → ℕ → Result ℕ
sub_big a b = if leb b a then ok (a - b) else err underflow

-- What `self.blockchain()` and `self.call_value()` answer during one call.
pub record Ctx : Type 0 where
  pub caller : Address
  pub owner : Address
  pub self_addr : Address
  pub egld : ℕ
  pub esdt : List (TokenId × ℕ)
  pub timestamp : ℕ
  pub round : ℕ
  pub block_nonce : ℕ
  pub gas_left : ℕ
  pub random_seed : ℕ

-- A message that the contract sends: EGLD, a fungible token, a call of an endpoint with EGLD. An
-- `async_call` carries the target, the endpoint's name, the numeric arguments and the EGLD.
pub data Message : Type 0 where
  send_egld : Address → ℕ → Message
  send_esdt : Address → TokenId → ℕ → Message
  call_receive_fee : Address → Address → ℕ → Message
  call_record_execution : Address → Address → Bool → Message
  call_target : Address → Hash → ℕ → Message
  async_call : Address → List ℕ → List ℕ → ℕ → Message

-- The EGLD that the messages send to an address by direct transfers.
abbrev pub paid_to : Address → List Message → ℕ
paid_to a [] = 0
paid_to a (send_egld to amount ∷ messages) = (if to == a then amount else 0) + paid_to a messages
paid_to a (m ∷ messages) = paid_to a messages

-- The EGLD of a contract, and what it has sent, the last message first.
pub record Account : Type 0 where
  pub balance : ℕ
  pub outbox : List Message

-- The payment of a `#[payable("EGLD")]` endpoint has arrived when its body begins.
abbrev pub receive : Ctx → Account → Account
receive c a = record a { balance = a.balance + c.egld }

-- Every other endpoint refuses EGLD.
abbrev pub non_payable : Ctx → Result (Unit {0})
non_payable c = guard (c.egld == 0) not_payable

-- `#[only_owner]`
abbrev pub require_owner : Ctx → Result (Unit {0})
require_owner c = guard (c.caller == c.owner) only_owner

abbrev pub emit : Message → Account → Account
emit m a = record a { outbox = m ∷ a.outbox }

-- `self.send().direct_egld(to, amount)`
unfoldable pub direct_egld : Address → ℕ → Account → Result Account
direct_egld to amount a =
    if leb amount a.balance
    then ok (record { balance = a.balance - amount; outbox = send_egld to amount ∷ a.outbox })
    else err insufficient_funds

pub direct_egld-ok :
    (to amount : ℕ) (a : Account)
    → amount ≤ a.balance
    → direct_egld to amount a
      ≡ ok (record { balance = a.balance - amount; outbox = send_egld to amount ∷ a.outbox })
unfolding direct_egld
direct_egld-ok to amount a h = ground arith

-- `register_promise` of a raw call: its EGLD leaves the contract with it.
unfoldable pub register_promise : Address → List ℕ → List ℕ → ℕ → Account → Result Account
register_promise to endpoint args amount a =
    if leb amount a.balance
    then ok (record {
      balance = a.balance - amount;
      outbox = async_call to endpoint args amount ∷ a.outbox;
    })
    else err insufficient_funds
