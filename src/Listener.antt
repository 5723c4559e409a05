-- ===== src/Listener.antt =====
-- listener/processors.go and listener/syncer.go: what the events of the contracts do to the
-- database. The unpacking of logs (common/unpack.go) and the ethereum client are parameters.
pub mod Syncer
pub mod Batches
pub mod Headers
pub mod Closed
pub mod Lifecycle
pub mod Subtree
pub mod Deposited
use reddit_commander.Prelude.{
  ℕ, ◌%◌, int64_of, Option, none, some, Bool, true, false, not, ◌||◌, List, [], ◌∷◌, Outcome, Error,
  ok, err, panic, or_panic, record_not_found, leb, ◌==◌, list_eq, if◌then◌else◌, codes,
}
use reddit_commander.Constants.{tx_genesis, tx_deposit, batch_committed}
use reddit_commander.Bytes.{Str, Slice, ByteArray, to_string}
use reddit_commander.Bytes.Hex.{encode}
use reddit_commander.NodePath.{uint64, solidity_path_to_node_path}
use reddit_commander.Merkle.{Crypto}
use reddit_commander.Gorm.{Exec, Table, attempt, lift, pure, continue, ◌>>=◌, ◌>>◌}
use reddit_commander.State.{
  UserState, new_pending_user_state, add_new_pending_account, attach_deposit_info,
}
use reddit_commander.Account.{new_account, update_account}
use reddit_commander.Params.{
  Params, get_params, get_sync_status, update_sync_status_with_batch_number,
  update_sync_status_with_block_number,
}
use reddit_commander.Tx.{concat_txs}
use reddit_commander.Batch.{Batch, Token, blank_batch, add_new_batch, get_batch_by_index, add_token}
use reddit_commander.Database.{
  Tables, Db, on_states, on_accounts, on_params, on_syncs, on_batches, on_tokens,
}
use reddit_commander.Deposit.{get_deposit_node_and_siblings, finalise_deposits_and_add_batch}
use reddit_commander.Bazooka.{EthClient, fetch_batch_input_data}

-- ethTypes.Log.
pub record Log : Type 0 where
  pub topics : List ByteArray
  pub log_data : Slice
  pub tx_hash : ByteArray

-- The events of the contract bindings; an address is its text.
pub record NewPubkeyAdded : Type 0 where
  pub account_id : ℕ
  pub pubkey : Slice

pub record DepositQueued : Type 0 where
  pub account_id : ℕ
  pub payload : Slice

pub record DepositSubTreeReady : Type 0 where
  pub root : ByteArray

pub record DepositsFinalised : Type 0 where
  pub deposit_sub_tree_root : ByteArray
  pub path_to_sub_tree : ℕ

pub record NewBatch : Type 0 where
  pub committer : Str
  pub updated_root : ByteArray
  pub index : ℕ
  pub batch_type : ℕ

pub record RegisteredToken : Type 0 where
  pub token_type : ℕ
  pub token_contract : Str

-- What the syncer calls outside its own code.
pub record Chain : Type 0 where
  pub client : EthClient
  pub unpack_pubkey : Log → Outcome NewPubkeyAdded
  pub unpack_queued : Log → Outcome DepositQueued
  pub unpack_ready : Log → Outcome DepositSubTreeReady
  pub unpack_finalised : Log → Outcome DepositsFinalised
  pub unpack_batch : Log → Outcome NewBatch
  pub unpack_token : Log → Outcome RegisteredToken
  -- FilterLogs from the first block to the second, both included
  pub filter_logs : ℕ → ℕ → Outcome (List Log)
  -- abi.Arguments.Pack for one value of type bytes
  pub pack_bytes : Slice → Outcome Slice
  -- the gorm update that has neither a model nor a table
  pub no_table : Batch → Outcome (Unit {0})

-- abi.Event: its name and its id.
pub record Event : Type 0 where
  pub name : Str
  pub event_id : ByteArray

-- `EventByID`.
unfoldable pub event_by_id : List Event → ByteArray → Option Event
event_by_id [] sigdata = none
event_by_id (event ∷ events) sigdata =
    if list_eq event.event_id sigdata then some event else event_by_id events sigdata

abbrev pub died {ℓ} : {A : Type ℓ} → Outcome A → Outcome A
died (ok a) = ok a
died (err e) = panic
died panic = panic

-- The callers that panic on an error.
abbrev pub must {ℓ} : {S : Type 0} {A : Type ℓ} → Exec S A → Exec S A
must m s = let (r, s') = m s in (died r, s')

-- The callers that return on an error, which goes no further.
abbrev pub or_return : {S : Type 0} → Exec S (Unit {0}) → Exec S (Unit {0})
or_return m s =
    let (r, s') = m s in elim r [ ok a ↦ (ok tt, s') | err e ↦ (ok tt, s') | panic ↦ (panic, s') ]

-- The tests of `processNewBatch` on what `GetBatchByIndex` returned.
pub data Known : Type 0 where
  seen : Batch → Known
  unseen unreadable : Known

abbrev pub known : Outcome Batch → Known
known (ok batch) = seen batch
known (err record_not_found) = unseen
known (err _) = unreadable
known panic = unreadable

module _ (K : Crypto) (C : Chain) (G : Tables) where
  unfoldable pub add_pubkey : NewPubkeyAdded → Params → Exec (Db G) (Unit {0})
  add_pubkey event params = do
    path_to_node ←
        must (lift (solidity_path_to_node_path (event.account_id % uint64) params.max_depth))
    new_acc ← must (
        lift (
          new_account K C.pack_bytes (event.account_id % uint64) (encode event.pubkey)
            path_to_node))
    must (on_accounts G (update_account K C.pack_bytes G.account_table new_acc))

  unfoldable pub process_new_pubkey_addition : Log → Exec (Db G) (Unit {0})
  unfolding add_pubkey
  process_new_pubkey_addition v_log = do
    event ← must (lift (C.unpack_pubkey v_log))
    params ← attempt (on_params G (get_params G.params_table))
    elim params [ ok p ↦ add_pubkey event p | err e ↦ pure tt | panic ↦ lift panic ]

  unfoldable pub process_deposit_queued : Log → Exec (Db G) (Unit {0})
  process_deposit_queued v_log = do
    event ← must (lift (C.unpack_queued v_log))
    must (
        on_states G (
          add_new_pending_account K G.state_table
            (new_pending_user_state K (event.account_id % uint64) event.payload)))

  -- `SendDepositFinalisationTx`; `FireDepositFinalisation` does nothing.
  unfoldable pub send_deposit_finalisation_tx : Exec (Db G) (Unit {0})
  send_deposit_finalisation_tx = or_return (do
    params ← on_params G (get_params G.params_table)
    found ← get_deposit_node_and_siblings K G
    pure tt)

  unfoldable pub process_deposit_subtree_created : Log → Exec (Db G) (Unit {0})
  unfolding send_deposit_finalisation_tx
  process_deposit_subtree_created v_log = do
    event ← must (lift (C.unpack_ready v_log))
    must (on_states G (attach_deposit_info K G.state_table event.root))
    send_deposit_finalisation_tx

  unfoldable pub process_deposit_finalised : Log → Exec (Db G) (Unit {0})
  process_deposit_finalised v_log = do
    event ← must (lift (C.unpack_finalised v_log))
    new_root ← attempt (
        finalise_deposits_and_add_batch K G event.deposit_sub_tree_root
          (event.path_to_sub_tree % uint64))
    pure tt

  -- The batch that `processNewBatch` stores or commits.
  abbrev pub committed_batch : NewBatch → Params → List Slice → Batch
  committed_batch event params txs = record blank_batch {
    batch_id = event.index % uint64;
    state_root = to_string event.updated_root;
    transactions_included = concat_txs txs;
    committer = event.committer;
    stake_amount = params.stake_amount;
    status = batch_committed;
  }

  -- `CommitBatch`; its error is not looked at.
  unfoldable pub commit_batch : Batch → Exec (Db G) (Unit {0})
  commit_batch batch = lift (C.no_table batch)

  -- The end of `processNewBatch`, once the batch was looked for. `ApplyTxsFromBatch` does nothing.
  unfoldable pub store_batch : NewBatch → Params → List Slice → Known → Exec (Db G) (Unit {0})
  unfolding commit_batch
  store_batch event params txs unseen =
      must (on_batches G (add_new_batch G.batch_table (committed_batch event params txs)))
  store_batch event params txs unreadable = pure tt
  store_batch event params txs (seen batch) = do
    committed ←
        (if batch.status == batch_committed
          then pure (ok tt)
          else attempt (commit_batch (committed_batch event params txs)))
    updated ←
        attempt
          (on_syncs G (update_sync_status_with_batch_number G.sync_table (event.index % uint64)))
    pure tt

  -- The calldata is fetched for every type but genesis.
  unfoldable pub batch_txs : Log → NewBatch → Outcome (List Slice)
  batch_txs v_log event =
      if not (event.batch_type == tx_genesis) || event.batch_type == tx_deposit
      then fetch_batch_input_data C.client v_log.tx_hash
      else ok []

  unfoldable pub record_batch : Log → NewBatch → Params → Exec (Db G) (Unit {0})
  unfolding store_batch batch_txs
  record_batch v_log event params = do
    txs ← must (lift (batch_txs v_log event))
    found ← attempt (on_batches G (get_batch_by_index G.batch_table (event.index % uint64)))
    store_batch event params txs (known found)

  unfoldable pub process_new_batch : Log → Exec (Db G) (Unit {0})
  unfolding record_batch
  process_new_batch v_log = do
    event ← must (lift (C.unpack_batch v_log))
    params ← attempt (on_params G (get_params G.params_table))
    elim params [ ok p ↦ record_batch v_log event p | err e ↦ pure tt | panic ↦ lift panic ]

  unfoldable pub process_registered_token : Log → Exec (Db G) (Unit {0})
  process_registered_token v_log = do
    event ← must (lift (C.unpack_token v_log))
    must (
        on_tokens G (
          add_token G.token_table
            (record { address = event.token_contract; token_id = event.token_type % uint64 })))
