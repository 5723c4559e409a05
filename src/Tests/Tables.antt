-- ===== src/Tests/Tables.antt =====
-- The theorems on the tables of the mempool, the parameters and the batches, on tables in memory.
use reddit_commander.Prelude.{
  ◌≤◌, ◌*◌, ◌-◌, true, false, ◌≡◌, refl, none, some, arith, [], ◌∷◌, map, ok, db_fault,
}
use reddit_commander.Gorm.{◌>>◌, count}
use reddit_commander.Gorm.Memory.{Mem, memory, reliable, reliable-IsQuiet}
use reddit_commander.State.{UserState, update_state}
use reddit_commander.State.Skeleton.{skeleton, update_state-skeleton}
use reddit_commander.Params.{Params, SyncStatus, get_params, get_sync_status}
use reddit_commander.Params.Writes.{stake, depth, run_writes, get_params-run_writes}
use reddit_commander.Params.Sync.{SyncWrite, run_sync_writes, get_sync_status-run_sync_writes}
use reddit_commander.Tx.{
  Tx, mark, Popped, pop_txs, pop_begun, pop_mark, fetch_tx_type, fetch_tx_type_loop,
  get_count_per_tx_type,
}
use reddit_commander.Tx.Pop.{Handed, pop_txs-Kept, pop_txs-Handed}
use reddit_commander.Batch.{Batch}
use reddit_commander.Database.{Db}
use reddit_commander.Aggregator.Round.{waiting, rounds, rounds-waiting}
use reddit_commander.Listener.{Log, batch_txs, committed_batch, process_new_batch}
use reddit_commander.Listener.Batches.{process_new_batch-twice}
use reddit_commander.Listener.Syncer.{process_header}
use reddit_commander.Listener.Headers.{process_header-empty}
use reddit_commander.Tests.Fixtures.{toy, left_leaf, small_rows, small_table}
use reddit_commander.Tests.Stores.{
  stored, quiet_tables, transfer_tx, later_tx, some_params, some_sync, some_db, first_batch, chain,
}

-- The third statement fails, so that only part of the writes is made.
abbrev failing_table : Mem UserState
failing_table = record small_table { script = false ∷ false ∷ true ∷ [] }

update_state-skeleton_example :
    map skeleton
      ((memory UserState).rows (update_state toy (memory UserState) left_leaf failing_table).1)
    ≡ map skeleton small_rows
update_state-skeleton_example = update_state-skeleton toy (memory UserState) left_leaf failing_table

get_params-run_writes_example :
    (s' : Mem Params) × ((run_writes (reliable Params) (depth 4 ∷ stake 0 ∷ depth 6 ∷ [])
          >> get_params (reliable Params))
        (stored (some_params ∷ []))
      ≡ (ok (record some_params { max_depth = 6 }), s'))
get_params-run_writes_example =
    get_params-run_writes (reliable Params) (reliable-IsQuiet Params)
      (depth 4 ∷ stake 0 ∷ depth 6 ∷ []) some_params (stored (some_params ∷ [])) refl

get_sync_status-run_sync_writes_example :
    (s' : Mem SyncStatus) × ((run_sync_writes
            (reliable SyncStatus)
            (SyncWrite.block 8 ∷ SyncWrite.batch 2 ∷ [])
          >> get_sync_status (reliable SyncStatus))
        (stored (some_sync ∷ []))
      ≡ (ok (record some_sync { last_eth_block_recorded = 8; last_batch_recorded = 2 }), s'))
get_sync_status-run_sync_writes_example =
    get_sync_status-run_sync_writes (reliable SyncStatus) (reliable-IsQuiet SyncStatus)
      (SyncWrite.block 8 ∷ SyncWrite.batch 2 ∷ []) some_sync (stored (some_sync ∷ [])) refl

pop_txs-Handed_example :
    (p : Popped) × (s' : Mem Tx) × (pop_txs (reliable Tx) 1 (stored (later_tx ∷ transfer_tx ∷ []))
      ≡ (ok p, s'))
    × (p.failure ≡ none)
    × Handed (reliable Tx) 1 (later_tx ∷ transfer_tx ∷ []) s'.held p.txs
pop_txs-Handed_example =
    pop_txs-Handed (reliable Tx) 1 (stored (later_tx ∷ transfer_tx ∷ [])) (reliable-IsQuiet Tx)

-- The query of the transaction fails.
abbrev failing_pool : Mem Tx
failing_pool = record { held = later_tx ∷ transfer_tx ∷ []; script = false ∷ false ∷ true ∷ [] }

abbrev nothing_popped : Popped
nothing_popped = record { txs = []; failure = some db_fault }

pop_txs-Kept_example : (pop_txs (memory Tx) 1 failing_pool).1.held ≡ later_tx ∷ transfer_tx ∷ []
unfolding pop_txs pop_begun pop_mark fetch_tx_type fetch_tx_type_loop get_count_per_tx_type count
pop_txs-Kept_example = pop_txs-Kept (memory Tx) 1 failing_pool nothing_popped db_fault refl refl

rounds-waiting_example :
    (s : Mem Tx) × (rounds quiet_tables 1 2 some_db ≡ (ok tt, record some_db { txs = s }))
    × (waiting s.held ≤ 2 - 2 * 1)
    × (map (mark 0) s.held ≡ map (mark 0) (later_tx ∷ transfer_tx ∷ []))
rounds-waiting_example = rounds-waiting quiet_tables 1 2 some_db (reliable-IsQuiet Tx)

abbrev batch_log : Log
batch_log = record { topics = []; log_data = []; tx_hash = [] }

process_new_batch-twice_example :
    (db' : Db quiet_tables) × ((process_new_batch toy chain quiet_tables batch_log
          >> process_new_batch toy chain quiet_tables batch_log)
        some_db
      ≡ (ok tt, db'))
    × (db'.batches.held ≡ committed_batch toy chain quiet_tables first_batch some_params [] ∷ [])
    × (db'.syncs.held ≡ record some_sync { last_batch_recorded = 4 } ∷ [])
unfolding batch_txs
process_new_batch-twice_example =
    process_new_batch-twice toy chain quiet_tables (reliable-IsQuiet Batch)
      (reliable-IsQuiet Params) batch_log first_batch some_params [] some_sync some_db
      (reliable-IsQuiet SyncStatus) (record { unpacked = refl; fetched = refl; params = refl }) refl
      refl

process_header-empty_example :
    (s : Mem SyncStatus) × (process_header toy chain quiet_tables [] 8 some_db
      ≡ (ok tt, record some_db { syncs = s }))
    × (s.held ≡ record some_sync { last_eth_block_recorded = 8 } ∷ [])
process_header-empty_example =
    process_header-empty toy chain quiet_tables (reliable-IsQuiet SyncStatus) [] 8 some_sync some_db
      refl (omega arith) refl
