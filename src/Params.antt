-- ===== src/Params.antt =====
-- core/params.go: the parameters of the rollup and the progress of the syncer, a table of one row
-- each. The columns of DBModel in Params are not read and are left out.
pub mod Writes
pub mod Sync
use reddit_commander.Prelude.{
  ℕ, ◌≡◌, Bool, true, false, List, [], ◌∷◌, Outcome, ok, err, panic, list_eq,
}
use reddit_commander.Bytes.{Str}
use reddit_commander.Gorm.{Exec, Table, pure, ◌>>=◌}

-- `type Params struct`.
pub record Params : Type 0 where
  pub stake_amount : ℕ
  pub max_depth : ℕ
  pub max_deposit_sub_tree_height : ℕ
  pub finalisation_time : ℕ

abbrev pub blank_params : Params
blank_params = record {
  stake_amount = 0;
  max_depth = 0;
  max_deposit_sub_tree_height = 0;
  finalisation_time = 0;
}

-- `type SyncStatus struct`.
pub record SyncStatus : Type 0 where
  pub id : Str
  pub last_eth_block_recorded : ℕ
  pub last_batch_recorded : ℕ

module _ (T : Table SyncStatus) where
  unfoldable pub get_sync_status : Exec T.Store SyncStatus
  get_sync_status = T.find_one (λ row. true)

  -- The columns that `Update(&updatedSyncStatus)` writes.
  abbrev pub assign_sync : ℕ → ℕ → SyncStatus → SyncStatus
  assign_sync block batch row = record row {
    last_eth_block_recorded = T.overwrite_number block row.last_eth_block_recorded;
    last_batch_recorded = T.overwrite_number batch row.last_batch_recorded;
  }

  unfoldable pub update_sync_status_with_batch_number : ℕ → Exec T.Store (Unit {0})
  update_sync_status_with_batch_number batch_index = do
    sync_status ← get_sync_status
    T.update (λ row. list_eq row.id sync_status.id)
        (assign_sync sync_status.last_eth_block_recorded batch_index)

  unfoldable pub update_sync_status_with_block_number : ℕ → Exec T.Store (Unit {0})
  update_sync_status_with_block_number blk_num = do
    sync_status ← get_sync_status
    T.update (λ row. list_eq row.id sync_status.id)
        (assign_sync blk_num sync_status.last_batch_recorded)

  -- The id is filled in by the database.
  unfoldable pub init_sync_status : Str → ℕ → Exec T.Store (Unit {0})
  init_sync_status default_id start_block = T.insert (
      record { id = default_id; last_eth_block_recorded = start_block; last_batch_recorded = 0 }
      ∷ [])

module _ (T : Table Params) where
  unfoldable pub update_stake_amount : ℕ → Exec T.Store (Unit {0})
  update_stake_amount new_stake_amount =
      T.first_or_create
        (λ row. record row { stake_amount = T.overwrite_number new_stake_amount row.stake_amount })
        (record blank_params { stake_amount = new_stake_amount })

  -- The row that is inserted when there is none has the duration as its depth.
  unfoldable pub update_finalisation_time_per_batch : ℕ → Exec T.Store (Unit {0})
  update_finalisation_time_per_batch finalisation_duration =
      T.first_or_create
        (λ row. record row {
          finalisation_time = T.overwrite_number finalisation_duration row.finalisation_time;
        })
        (record blank_params { max_depth = finalisation_duration })

  unfoldable pub update_max_depth : ℕ → Exec T.Store (Unit {0})
  update_max_depth new_depth =
      T.first_or_create
        (λ row. record row { max_depth = T.overwrite_number new_depth row.max_depth })
        (record blank_params { max_depth = new_depth })

  unfoldable pub update_deposit_sub_tree_height : ℕ → Exec T.Store (Unit {0})
  update_deposit_sub_tree_height new_height =
      T.first_or_create
        (λ row. record row {
          max_deposit_sub_tree_height =
              T.overwrite_number new_height row.max_deposit_sub_tree_height;
        })
        (record blank_params { max_deposit_sub_tree_height = new_height })

  unfoldable pub get_batch_finalisation_time : Exec T.Store ℕ
  get_batch_finalisation_time = do params ← T.find_one (λ row. true); pure params.finalisation_time

  unfoldable pub get_params : Exec T.Store Params
  get_params = T.find_one (λ row. true)
