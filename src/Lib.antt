-- ===== src/Lib.antt =====
-- The coordinator node of the rollup: it keeps a copy of the state tree and of the account tree in a
-- database, follows the events of the contracts on the ethereum chain, collects transactions in a
-- mempool and makes batches of them.
--
-- The parts and their files, with paths from the root of the repository:
-- - core/alias.go, 32-byte arrays and their text: Bytes; the standard library's hex codec: Bytes/Hex.
-- - core/utils.go, paths of nodes as texts of bits: NodePath; its binary numbers, families of nodes and
--   indices: NodePath/Binary, NodePath/Family, NodePath/Index; a path read from its end: NodePath/Spine.
-- - core/utils.go and core/merkleTree.go, hashes of inner nodes and of empty trees: Merkle.
-- - core/state.go, the state tree: State, with InitStateTree in State/Init; GetStateByIndex in Database.
--   State/Rows, Spine, Put, Loop, Update and Climb follow UpdateState and GetSiblings round by round,
--   State/Skeleton follows every branch for what is never written. State/Leaves, Levels, Build and Start
--   follow InitStateTree level by level.
-- - core/account.go, the account tree: Account; its rows as nodes, InitAccountTree and
--   GetAccountSiblings: Account/Nodes, Account/Start, Account/Climb; a key that is
--   taken: Account/Taken.
-- - core/params.go, the parameters and the syncer's progress: Params.
-- - core/batch.go and core/tokenRegistry.go: Batch.
-- - core/tx.go, transactions and the mempool: Tx, with Apply and the proofs for an account in Tx/Apply;
--   a whole transfer: Tx/Leaves, Tx/Applied.
-- - core/DepositTree.go, deposits: Deposit; the proof for an empty subtree in Deposit/Candidate, the root
--   after a finalisation in Deposit/Root. Deposit/Closed and Listener/Closed carry any relation along
--   which the writes move the rows of the state tree through every call and handler; Deposit/Settled has
--   two such relations. Listener/Lifecycle, Subtree and Deposited follow deposits through their events.
-- - core/bazooka.go and core/merkleProof.go, the calls of the contracts: Bazooka.
-- - aggregator/aggregator.go: Aggregator, its rounds in Aggregator/Round.
-- - wallet/wallet.go and `SignTx`: Wallet.
-- - The three services on one database, step by step: Services; their loops from start to stop:
--   Services/Loops, and what holds of them: Services/Ordered; how they come to whole steps:
--   Services/Refined.
-- - rest/api.go and rest/utils.go: Rest; what a posted transaction leaves, and its way to the
--   aggregator: Rest/Received, Rest/Taken.
-- - listener/processors.go: Listener; listener/syncer.go and listener/utils.go: Listener/Syncer.
-- - config/genesis.go and cmd/start.go, the first start: Genesis; the rows it makes
--   and the database it leaves: Genesis/Filled, Ready, Loaded, Started.
-- The listener stores deposits, batches, keys and tokens and finalises deposits in the state tree, each
-- event by its handler; the aggregator pops the mempool; the first start fills both trees.
--
-- A Go string is the list of its code points, a byte slice a list of numbers; a uint64 is a native
-- number with its wrap-around written out where the code computes with it. A function is named after
-- the Go function in snake case. An outcome is a value, an error or a panic (Prelude/Outcomes); errors
-- that callers only tell apart from success are merged. A call on the database takes the store and
-- returns an outcome and the store after it, with what was written before an error (Gorm). Loops are
-- recursion on the rounds left or on the list; strconv.FormatUint has 64 rounds, which a uint64 cannot
-- exceed.
--
-- Parameters: github.com/jinzhu/gorm over a table of rows (Gorm.Table: which rows a query returns, that
-- an update by a struct skips blank fields, that a failed statement writes nothing, that an unfinished
-- database transaction leaves the rows as they were; which statement fails is open); keccak and the ABI
-- encoder of go-ethereum (Merkle.Crypto), pad.Left (NodePath.PadLibrary), the contracts
-- (Bazooka.Frontend), the ethereum client and the unpacking of logs (Listener.Chain), the BLS library
-- (Wallet.Bls), encoding/json (Rest.Json), the primary key of the account table (Account.AutoKeys),
-- rlp encoding, the uuid and the time of an insertion. Gorm/Memory is such a table, with a script of
-- failing statements.
--
-- Not modelled: the interleaving of single statements of two services; subscriptions, whose client
-- feeds the channel in place of the poller; logging; the HTTP router, files and the command line; the
-- opening of connections; GetAccountByHash and GetFirstEmptyAccount, which pass a hash to gorm as a
-- condition in SQL; the columns of DBModel but for the id and the creation time of a transaction; the
-- generated bindings under contracts; core/service.go, config/filePV.go, common/unpack.go and
-- migrations/gormmigrate.go, which are copies of library code.
mod Prelude
pub mod Bytes
pub mod Constants
pub mod NodePath
pub mod Gorm
pub mod Params
pub mod Batch
pub mod Tx
pub mod Database
pub mod Bazooka
pub mod Aggregator
pub mod Listener
pub mod Genesis
pub mod Deposit
pub mod Merkle
pub mod State
pub mod Account
pub mod Rest
pub mod Services
pub mod Wallet
mod Tests
