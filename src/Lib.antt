-- ===== src/Lib.antt =====
-- This library models the deterministic core of the XELIS blockchain, a block DAG with encrypted balances:
-- the formats that nodes exchange and store, and the rules by which the daemon orders, rewards and admits.
--
-- The parts and where they are modelled:
-- - xelis_common/src/serializer: Serializer. `Reader` is the buffer with the count of bytes read, and
--   `Serializer.Reader` has its operations; a `Writer` is the list of bytes that a value appends. `Trait`
--   has the trait with `to_bytes` and `from_bytes`, `Words` the big-endian numbers, `Numbers`, `Arrays`
--   and `Containers` the instances of defaults.rs. A deserializer is a function from a reader to a result
--   with the next reader, and is composed by do blocks in the order of the code.
-- - xelis_common/src/account and versioned_type.rs: Account. `Nonce` and `Balance` are the versions that the
--   storage keeps, `Versioned` their state, `Cache` the ciphertext that is compressed on demand.
-- - xelis_common/src/block: Block, with the versions (`Version`) and the header (`Header`).
-- - xelis_common/src/transaction: Transaction, with the public payloads and the multisig.
-- - xelis_common/src/queue.rs: Queue.
-- - xelis_daemon/src/core: Daemon. `Rewards` has the emission, the side block rewards and the fee of a
--   transaction of blockchain.rs and utils.rs; `HardFork` is hard_fork.rs with the tables of config.rs; `NonceChecker` is
--   nonce_checker.rs; `BlockDag` is blockdag.rs; `SideBlock` has the search for side
--   blocks of blockchain.rs; `Difficulty` is the folder difficulty. `Dag` has what blockchain.rs computes
--   over the past of a block: `Sync` the sync blocks, `Mainchain` the distance from the main chain,
--   `Reachability` the tips that stand on each other, `WorkScore` the work of a tip and the best tip,
--   `FullOrder` the order in which the blocks are executed; `Dag.View` says what a storage that knows its
--   blocks answers. `Mempool` is mempool.rs and `TxSelector` is tx_selector.rs.
-- - Prelude has what all share; Examples has the concrete inputs at which the theorems apply.
--
-- How the code is translated. Numbers are natural numbers, and a word is reduced by `%` where the code may
-- wrap. A hash, a key or a scalar is the list of its bytes. A set that keeps the order of insertion is the
-- list of its items; a map is the function of what it holds at a key, or the list of its entries where it
-- is iterated. A function that may fail returns `Result` with the source's error; where the code mutates
-- an object, the function returns the next one. Loops are structural recursion on the items, or on the
-- count that was read. Only the walks over the past of a block run on fuel, and give `none` when it is
-- spent: `Dag.View.weight_at` of the height of the block where a walk begins is enough, since a block has
-- at most 3 tips and all of them are lower. The mutable caches of blockchain.rs are states that the
-- functions take and return; the LRU library behind them is the parameter `Dag.Lru`, which says that a
-- cache answers only with what was put under the key. What the storage answers is a function that the
-- definitions take; the theorems about tips assume that it knows the blocks in question. The curve of the
-- encryption is the parameter `Account.Cache.Curve`, which says of compression that it is undone by
-- decompression and that only canonical compressions decompress. The test of a software version by the
-- semver crate is a parameter, and so are the 256-bit integers of the difficulty
-- (`Daemon.Difficulty.U256`): they are exact below 2 ^ 256, and nothing is said of them elsewhere. Which
-- 32 bytes are a canonical scalar of a signature is the parameter `is_canonical` of
-- `Transaction.MultiSig`, and nothing is said of it.
--
-- Not modelled: the storage, the network, the servers, the wallet, the miner and the prompts are I/O; the
-- proofs and the encryption belong to libraries of cryptography; the contracts run on a virtual machine of
-- another repository. The state of a chain, the bases of tips, the acceptance of a block as a whole and
-- the verification of a transaction are not modelled either; the verification is a parameter of the memory
-- pool. Logging is left out everywhere, and of the JSON forms there is no model.
pub mod Prelude
pub mod Queue
pub mod Serializer
pub mod Account
pub mod Block
pub mod Transaction
pub mod Daemon
pub mod Examples
