-- ===== src/Lib.antt =====
-- A verification library for the smart contracts of the XCron automation protocol: the Scheduler, the
-- KeeperRegistry, the Rewards contract, the vault, the price oracle xWAP, the agent shield with its
-- registries and marketplace, the vault for arbitrage, the contract for state compression and the
-- proof verifier; the Merkle checks that two contracts and the keeper service carry out; the keeper's
-- sessions of stealth addresses; and the enclave service XSE, which executes intents on an exchange.
--
-- Users deposit EGLD for a task with a trigger; whitelisted keepers execute it once the trigger is
-- met; the callback of the target's call settles it, pays the keeper, refunds the owner, and reports
-- the result to the KeeperRegistry, which slashes keepers for failures. Accrued protocol fees are
-- flushed to the Rewards contract, which splits them between the treasury and the keepers. The
-- Scheduler also keeps Clone-Keys, which schedule on a wallet's behalf within a budget, and intents,
-- which solvers settle against token payments. The vault delegates deposits and runs the strategies
-- that scheduled tasks trigger. Before a task that asks for it, the Scheduler queries the oracle, the
-- state compression contract or the proof verifier. The agent shield spends for an agent within daily
-- limits; agents are registered, validated, rated and sold through the registries and the
-- marketplace.
--
-- The files and the code that they are about, with paths from the root of the repository:
--   Framework          what is taken from multiversx-sc: outcomes, storage mappers, the call context
--   Common             contracts/common/src/types.rs and constants.rs
--   KeeperRegistry     contracts/keeper-registry/src: State (storage.rs, config.rs, validation.rs,
--                      views.rs, init and upgrade), Staking (register_keeper to withdraw_stake),
--                      Slashing (slash_keeper, record_execution), Delegation (delegate_stake to
--                      sweep_slashed_debt), Calls (all endpoints); the other modules prove
--   Rewards            contracts/rewards/src: Contract; Accounts proves, and Ledger that it refines
--                      a ledger with no storage
--   Vault              contracts/vault/src/lib.rs: State (storage, init, the owner's settings),
--                      Savings (deposit to withdraw_unbonded), Strategies (compound to
--                      mint_callback), Calls (all endpoints and callbacks); Pending and Flights
--                      prove
--   Xwap               contracts/xwap/src: State (storage.rs, config.rs, init), Keepers (keepers.rs),
--                      Oracle (oracle.rs and is_safe_to_execute of views.rs), Calls; Sorting,
--                      Median, Average and Safety prove
--   Shield             contracts/xcron-agent-shield/escrow/src/lib.rs: Contract; Limits proves
--   Agents             contracts/xcron-agent-shield: Types (common/src/structs.rs), Identity
--                      (identity-registry/src), Validation (validation-registry/src), Reputation
--                      (reputation-registry/src), Marketplace (xcron-agent-marketplace/src); Sales
--                      and Requests prove
--   HftVault           contracts/xcron-hft-vault/src/xcron_hft_vault.rs
--   XscCore            contracts/xsc-core/src/xsc_core.rs: Contract; Packing and Unpacking prove
--   ZkVerifier         contracts/zk-verifier/src/lib.rs: Contract; Openings proves
--   Scheduler          contracts/scheduler/src: State (storage.rs, helpers.rs, init and upgrade),
--                      Validation (validation.rs and the checks of scheduling.rs), Config (config.rs,
--                      admin.rs), CloneKeys (clone_keys.rs), Scheduling (scheduling.rs), Execution
--                      (execution.rs), Intents (intents.rs), Calls (all endpoints); Funds and
--                      Lifecycle prove
--   Merkle             verify_merkle_proof of contracts/scheduler/src/intents.rs, verify_proof of
--                      contracts/xsc-core/src/xsc_core.rs, and compute_chain_root of
--                      xcron-keeper-rs/src/pcit.rs: Proof; Order and Agreement prove
--   Compose            the contracts together: Links (the Scheduler's queries, answered by xsc-core
--                      and xwap); States, Markets and Fees prove
--   Keeper             xcron-keeper-rs/src: Sessions (session_db.rs), Drips (drip_funder.rs), Leaves
--                      (pcit.rs, against intents.rs of the Scheduler), Transactions
--                      (transaction.rs); Retries, Passes, Float, Limits, LostKeys and DailyCap prove
--   Xse                xse-protocol/src: Schema (schema.rs), Validator (validator.rs), Enclave
--                      (crypto.rs), Cycle (relayer.rs and main.rs); Acceptance, Batches, Secrets and
--                      Spending prove
--   Tests              concrete states at which the theorems are applied
--
-- An endpoint is a function from the call's context and the contract's state to a result: the state
-- afterwards, or the error of the first `require!` that fails. An error carries no state, because the
-- chain undoes the call. `dispatch` runs one transaction and `run` a list of them, where a failed one
-- changes nothing. A contract's EGLD is its `account`, with the messages that it sends, the last one
-- first; a callback is a transaction of its own, with arbitrary arguments. In Vault/Flights the
-- callbacks of deposits are tied to the deposits in flight by a step relation. A promise that carries
-- EGLD takes it out of the balance when it is registered.
--
-- Assumptions. Storage mappers, hashing, serialisation and other contracts are parameters. The laws
-- of `UnorderedSetMapper`, `VecMapper` and `BiDiMapper` are those of the framework's documentation. To read an empty
-- slot of a type with a fixed size aborts, and a zero number is stored as an empty slot. `u64` and
-- `u32` wrap, since the contracts are built without overflow checks; `BigUint` does not, and aborts
-- below zero. Endpoints that are not payable refuse EGLD; this is written out where the body moves
-- funds. Contracts that are called synchronously do not call back, and the staking provider acts on
-- the balance only. Addresses, token identifiers and hashes are numbers; a hash has 256 bits, in
-- 32 bytes with the most significant first.
-- The off-chain services return results with errors of their own (Prelude/Fallible); texts are their
-- bytes, or their code points, and numbers in texts are read and written as Rust does
-- (Prelude/Decimal). What the network, the clock, RSA, ed25519, Dilithium, base64 and the parser of
-- dates give is a parameter. `u128` and `u32` wrap there, as in a release build. Their calls run one at
-- a time, and no lock is poisoned.
--
-- All recursion is structural, on lists, on the number of entries that are left to scan, or on the
-- number of passes that a loop over indices makes. Only the digits of a number are written with a
-- bound on their count, 39 for a `u128` and 16 hexadecimal ones for a `u64`, which is enough.
--
-- Single and multi intents are modelled as the code has them, but no endpoint writes
-- acceptedPaymentTokens, which opening them requires, so none is ever opened; pre-cognitive intents do
-- not ask for it.
--
-- Not modelled: events, and views but for those that other parts use; the issue of the agents' token;
-- the requests over the network, the key files and the tools of the off-chain services, and the
-- frontends; generated proxies and the contracts that only serve tests. The Scheduler's queries are
-- parameters of its model, since it decodes raw results; Compose answers those of xsc-core and xwap,
-- and leaves the oracle of a trigger and the proof verifier open.
pub mod Prelude
pub mod Framework
pub mod Common
pub mod KeeperRegistry
pub mod Rewards
pub mod Vault
pub mod Xse
pub mod Xwap
pub mod Shield
pub mod XscCore
pub mod ZkVerifier
pub mod Agents
pub mod Compose
pub mod HftVault
pub mod Keeper
pub mod Merkle
pub mod Scheduler
pub mod Tests
