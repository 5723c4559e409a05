-- ===== src/Listener/Batches.antt =====
-- listener/processors.go: what the event of a new batch does, the first time and again.
use reddit_commander.Prelude.{
  ℕ, ◌%◌, ◌≡◌, refl, ap, ◌∙◌, List, [], ◌∷◌, ◌++◌, select, select-append, ok, ◌==◌, ==_refl,
}
use reddit_commander.Bytes.{Slice}
use reddit_commander.Constants.{batch_committed}
use reddit_commander.NodePath.{uint64}
use reddit_commander.Merkle.{Crypto}
use reddit_commander.Gorm.{IsQuiet, ◌>>◌}
use reddit_commander.Params.{Params, SyncStatus}
use reddit_commander.Params.Writes.{get_params_one}
use reddit_commander.Params.Sync.{SyncWrite, put_sync, run_sync_write, run_sync_write-Leaves}
use reddit_commander.Batch.{Batch, add_new_batch, get_batch_by_index}
use reddit_commander.Database.{Tables, Db}
use reddit_commander.Listener.{
  Chain, Log, NewBatch, committed_batch, store_batch, batch_txs, record_batch, process_new_batch,
}

module _ (K : Crypto) (C : Chain) (G : Tables) where
  abbrev rows_of : ℕ → List Batch → List Batch
  rows_of index = select (λ row. row.batch_id == index % uint64)

  -- A log that is a new batch, and what the handler reads for it.
  pub record Announced (v_log : Log) (event : NewBatch) (p : Params) (txs : List Slice) (db : Db G)
      : Type 0 where
    pub unpacked : C.unpack_batch v_log ≡ ok event
    pub fetched : batch_txs K C G v_log event ≡ ok txs
    pub params : G.params_table.rows db.params ≡ p ∷ []

  module _ (quiet_batches : IsQuiet G.batch_table) (quiet_params : IsQuiet G.params_table) where
    -- The first event of a batch stores it as committed, with the parameters of the moment, and
    -- changes no other table: the syncer's record of the last batch stays behind.
    pub process_new_batch-fresh :
        (v_log : Log) (event : NewBatch) (p : Params) (txs : List Slice) (db : Db G)
        → Announced v_log event p txs db
        → rows_of event.index (G.batch_table.rows db.batches) ≡ []
        → (s : G.batch_table.Store) × (process_new_batch K C G v_log db
            ≡ (ok tt, record db { params = G.params_table.tick db.params; batches = s }))
          × (G.batch_table.rows s
              ≡ G.batch_table.rows db.batches ++ committed_batch K C G event p txs ∷ [])
    unfolding process_new_batch record_batch store_batch get_batch_by_index add_new_batch
    process_new_batch-fresh v_log event p txs db a fresh =
        let row : Batch = committed_batch K C G event p txs in
        let s1 : G.batch_table.Store = G.batch_table.tick db.batches in
        (
          G.batch_table.inserted (row ∷ []) s1,
          rw
              (
                a.unpacked,
                get_params_one G.params_table quiet_params p db.params a.params,
                a.fetched,
                G.batch_table.find_one_lem (λ b. b.batch_id == event.index % uint64) db.batches,
                quiet_batches db.batches,
                fresh,
                G.batch_table.pick_none,
                G.batch_table.insert_lem (row ∷ []) s1,
                quiet_batches s1,
              )
              refl,
          G.batch_table.rows-inserted (row ∷ []) s1
              ∙ ap (λ rows. rows ++ row ∷ []) (G.batch_table.rows-tick db.batches),
        )

    -- A later event of a batch that is committed stores nothing, and records its index as the last
    -- one, unless the index is 0.
    pub process_new_batch-seen :
        (v_log : Log) (event : NewBatch) (p : Params) (txs : List Slice) (b : Batch)
        (r : SyncStatus) (db : Db G)
        → IsQuiet G.sync_table
        → Announced v_log event p txs db
        → rows_of event.index (G.batch_table.rows db.batches) ≡ b ∷ []
        → b.status ≡ batch_committed
        → G.sync_table.rows db.syncs ≡ r ∷ []
        → (s : G.sync_table.Store) × (process_new_batch K C G v_log db ≡ (
          ok tt,
          record db {
            params = G.params_table.tick db.params;
            batches = G.batch_table.tick db.batches;
            syncs = s;
          },
        ))
          × (G.sync_table.rows s ≡ put_sync (SyncWrite.batch (event.index % uint64)) r ∷ [])
    unfolding process_new_batch record_batch store_batch get_batch_by_index run_sync_write
    process_new_batch-seen v_log event p txs b r db quiet_syncs a found committed one =
        let (s, runs, written) =
          run_sync_write-Leaves G.sync_table quiet_syncs (SyncWrite.batch (event.index % uint64)) r
            db.syncs one in
        (
          s,
          rw
              (
                a.unpacked,
                get_params_one G.params_table quiet_params p db.params a.params,
                a.fetched,
                G.batch_table.find_one_lem (λ row. row.batch_id == event.index % uint64) db.batches,
                quiet_batches db.batches,
                found,
                G.batch_table.pick_one b,
                committed,
                runs,
              )
              refl,
          written,
        )

    -- For a log that unpacks to the event of a batch not yet stored, whose calldata can be read, with
    -- one row each of parameters and progress and where no statement fails: with the event handled
    -- twice the batch is stored once, as committed. Its index is recorded as the last one, unless it
    -- is 0.
    pub process_new_batch-twice :
        (v_log : Log) (event : NewBatch) (p : Params) (txs : List Slice) (r : SyncStatus)
        (db : Db G)
        → IsQuiet G.sync_table
        → Announced v_log event p txs db
        → rows_of event.index (G.batch_table.rows db.batches) ≡ []
        → G.sync_table.rows db.syncs ≡ r ∷ []
        → (db' : Db G) × ((process_new_batch K C G v_log >> process_new_batch K C G v_log) db
            ≡ (ok tt, db'))
          × (G.batch_table.rows db'.batches
              ≡ G.batch_table.rows db.batches ++ committed_batch K C G event p txs ∷ [])
          × (G.sync_table.rows db'.syncs ≡ put_sync (SyncWrite.batch (event.index % uint64)) r ∷ [])
    process_new_batch-twice v_log event p txs r db quiet_syncs a fresh one =
        let row : Batch = committed_batch K C G event p txs in
        let (s, runs, stored) = process_new_batch-fresh v_log event p txs db a fresh in
        let db1 : Db G = record db { params = G.params_table.tick db.params; batches = s } in
        let again : Announced v_log event p txs db1 = record {
          unpacked = a.unpacked;
          fetched = a.fetched;
          params = G.params_table.rows-tick db.params ∙ a.params;
        } in
        let found : rows_of event.index (G.batch_table.rows s) ≡ row ∷ [] =
          ap (rows_of event.index) stored
          ∙ select-append (λ b. b.batch_id == event.index % uint64) (G.batch_table.rows db.batches)
              (row ∷ [])
          ∙ rw (fresh, ==_refl (event.index % uint64)) refl in
        let (t, runs2, written) =
          process_new_batch-seen v_log event p txs row r db1 quiet_syncs again found refl one in
        (
          record db1 {
            params = G.params_table.tick db1.params;
            batches = G.batch_table.tick s;
            syncs = t;
          },
          rw (runs, runs2) refl,
          G.batch_table.rows-tick s ∙ stored,
          written,
        )
