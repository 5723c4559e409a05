-- ===== src/Database.antt =====
-- core/db.go and core/state.go: the tables together, as the methods that use several of them see
-- them, and `GetStateByIndex`.
use reddit_commander.Prelude.{ℕ}
use reddit_commander.NodePath.{solidity_path_to_node_path}
use reddit_commander.Merkle.{Crypto}
use reddit_commander.Gorm.{Exec, Table, lift, ◌>>=◌}
use reddit_commander.State.{UserState, get_state_by_path}
use reddit_commander.Account.{Account}
use reddit_commander.Params.{Params, SyncStatus, get_params}
use reddit_commander.Tx.{Tx}
use reddit_commander.Batch.{Batch, Token}

pub record Tables : Type 1 where
  pub state_table : Table UserState
  pub account_table : Table Account
  pub params_table : Table Params
  pub sync_table : Table SyncStatus
  pub tx_table : Table Tx
  pub batch_table : Table Batch
  pub token_table : Table Token

-- `type DB struct`: what its tables hold.
pub record Db (G : Tables) : Type 0 where
  pub states : G.state_table.Store
  pub accounts : G.account_table.Store
  pub params : G.params_table.Store
  pub syncs : G.sync_table.Store
  pub txs : G.tx_table.Store
  pub batches : G.batch_table.Store
  pub tokens : G.token_table.Store

-- A call on one of the tables.
module _ {ℓ} (G : Tables) {A : Type ℓ} where
  abbrev pub on_states : Exec G.state_table.Store A → Exec (Db G) A
  on_states m db = let (r, s) = m db.states in (r, record db { states = s })

  abbrev pub on_accounts : Exec G.account_table.Store A → Exec (Db G) A
  on_accounts m db = let (r, s) = m db.accounts in (r, record db { accounts = s })

  abbrev pub on_params : Exec G.params_table.Store A → Exec (Db G) A
  on_params m db = let (r, s) = m db.params in (r, record db { params = s })

  abbrev pub on_syncs : Exec G.sync_table.Store A → Exec (Db G) A
  on_syncs m db = let (r, s) = m db.syncs in (r, record db { syncs = s })

  abbrev pub on_txs : Exec G.tx_table.Store A → Exec (Db G) A
  on_txs m db = let (r, s) = m db.txs in (r, record db { txs = s })

  abbrev pub on_batches : Exec G.batch_table.Store A → Exec (Db G) A
  on_batches m db = let (r, s) = m db.batches in (r, record db { batches = s })

  abbrev pub on_tokens : Exec G.token_table.Store A → Exec (Db G) A
  on_tokens m db = let (r, s) = m db.tokens in (r, record db { tokens = s })

-- `GetStateByIndex`.
unfoldable pub get_state_by_index : Crypto → (G : Tables) → ℕ → Exec (Db G) UserState
get_state_by_index K G index = do
  params ← on_params G (get_params G.params_table)
  path ← lift (solidity_path_to_node_path index params.max_depth)
  on_states G (get_state_by_path K G.state_table path)
