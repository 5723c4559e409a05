-- ===== src/Tx/Applied.antt =====
-- core/tx.go: the database after `Apply`.
use reddit_commander.Prelude.{
  ℕ, ◌^◌, ◌≤◌, ◌<◌, ◌≡◌, ◌≢◌, refl, sym, ap, ◌∙◌, subst, ◌||◌, [], ◌∷◌, ok, Bool, list_eq,
  list_eq_ne,
}
use reddit_commander.Constants.{tx_status_processed}
use reddit_commander.Bytes.{Slice}
use reddit_commander.NodePath.Binary.{binary, solidity_path_lem}
use reddit_commander.Merkle.{Crypto}
use reddit_commander.Gorm.{IsQuiet, map_where}
use reddit_commander.State.{UserState, update_state}
use reddit_commander.State.Rows.{Rows, Node}
use reddit_commander.State.Spine.{IsTree, get_state_by_path_lem}
use reddit_commander.State.Update.{IsMerkle}
use reddit_commander.State.Levels.{binary_injective}
use reddit_commander.Params.{Params}
use reddit_commander.Params.Writes.{get_params_one}
use reddit_commander.Database.{Tables, Db, get_state_by_index}
use reddit_commander.Tx.{Tx, mark, update_status}
use reddit_commander.Tx.Apply.{with_data, apply, apply_body, apply_end}
use reddit_commander.Tx.Leaves.{Applied, Applied-both, update_leaf, leaf_of}

module _ (K : Crypto) (G : Tables) where
  -- The rows that `UpdateStatus` writes.
  abbrev by_id : Tx → Tx → Bool
  by_id tx row = list_eq tx.id [] || list_eq row.id tx.id

  module _ (quiet : IsQuiet G.state_table) where
    module _ (quiet_params : IsQuiet G.params_table) where
      -- `GetStateByIndex` reads the leaf of the index.
      pub get_state_by_index_lem :
          (p : Params) (index : ℕ) (leaf : UserState) (db : Db G)
          → 0 < p.max_depth
          → p.max_depth ≤ 64
          → index < 2 ^ p.max_depth
          → G.params_table.rows db.params ≡ p ∷ []
          → Node (G.state_table.rows db.states) (binary p.max_depth index) leaf
          → get_state_by_index K G index db ≡ (
            ok leaf,
            record db {
              params = G.params_table.tick db.params;
              states = G.state_table.tick db.states;
            },
          )
      unfolding get_state_by_index
      get_state_by_index_lem p index leaf db pos le small one at =
          rw
            (
              get_params_one G.params_table quiet_params p db.params one,
              solidity_path_lem index p.max_depth pos le small,
              get_state_by_path_lem K G.state_table quiet (binary p.max_depth index) leaf db.states
                  at,
            )
            refl

    module _ (quiet_params : IsQuiet G.params_table) (quiet_txs : IsQuiet G.tx_table) where
      update_status-quiet :
          (tx : Tx) (s : G.tx_table.Store)
          → update_status G.tx_table tx_status_processed tx s
            ≡ (ok tt, G.tx_table.updated (by_id tx) (mark tx_status_processed) s)
      unfolding update_status
      update_status-quiet tx s =
          rw (G.tx_table.update_lem (by_id tx) (mark tx_status_processed) s, quiet_txs s) refl

      -- `Apply` where all its statements succeed.
      apply_step :
          (tx : Tx) (uf ut : Slice) (from_acc to_acc : UserState) (db db2 db4 : Db G)
          (s3 s5 : G.state_table.Store)
          → get_state_by_index K G tx.from (record db { states = G.state_table.tick db.states })
            ≡ (ok from_acc, db2)
          → update_state K G.state_table (with_data K G uf from_acc) db2.states ≡ (ok tt, s3)
          → get_state_by_index K G tx.to (record db2 { states = G.state_table.undone db.states s3 })
            ≡ (ok to_acc, db4)
          → update_state K G.state_table
              (with_data K G ut to_acc)
              (G.state_table.undone s3 db4.states)
            ≡ (ok tt, s5)
          → apply K G tx uf ut db ≡ (
            ok tt,
            record db4 {
              states = G.state_table.tick s5;
              txs = G.tx_table.updated (by_id tx) (mark tx_status_processed) db4.txs;
            },
          )
      unfolding apply apply_body apply_end
      apply_step tx uf ut from_acc to_acc db db2 db4 s3 s5 read1 wrote1 read2 wrote2 =
          rw
            (
              G.state_table.begin_lem db.states,
              quiet db.states,
              read1,
              wrote1,
              read2,
              wrote2,
              update_status-quiet tx db4.txs,
              G.state_table.commit_lem db.states s5,
              quiet s5,
            )
            refl

      -- On a full tree of the depth of the parameters' row, of 1 to 64, whose inner nodes join their
      -- children, for two different indices below 2^depth and a transaction with an id, and where no
      -- statement fails: `Apply` returns no error. Afterwards the tree is again full and joined, the
      -- leaves of the two indices have the bytes given for them, unless these are empty, and their
      -- hashes, every other leaf is as before, and of the transactions exactly those with this id
      -- have become processed.
      pub apply-Applied :
          (p : Params) (tx : Tx) (updated_from updated_to : Slice) (db : Db G)
          → 0 < p.max_depth
          → p.max_depth ≤ 64
          → tx.from < 2 ^ p.max_depth
          → tx.to < 2 ^ p.max_depth
          → tx.from ≢ tx.to
          → tx.id ≢ []
          → G.params_table.rows db.params ≡ p ∷ []
          → IsTree p.max_depth (G.state_table.rows db.states)
          → IsMerkle K p.max_depth (G.state_table.rows db.states)
          → (db' : Db G) × (apply K G tx updated_from updated_to db ≡ (ok tt, db'))
            × Applied K G p.max_depth tx updated_from updated_to
                (G.state_table.rows db.states)
                (G.state_table.rows db'.states)
            × (G.tx_table.rows db'.txs
                ≡ map_where
                    (λ row. list_eq row.id tx.id)
                    (mark tx_status_processed)
                    (G.tx_table.rows db.txs))
      apply-Applied p tx updated_from updated_to db pos le from_small to_small apart named one tree
            merkle =
          let rows : Rows = G.state_table.rows db.states in
          let d : ℕ = p.max_depth in
          let (from_acc, at_from, path1) = leaf_of K G quiet d tx.from rows tree in
          let (to_acc, at_to, path2) = leaf_of K G quiet d tx.to rows tree in
          let s1 : G.state_table.Store = G.state_table.tick db.states in
          let same1 : G.state_table.rows s1 ≡ rows = G.state_table.rows-tick db.states in
          let s2 : G.state_table.Store = G.state_table.tick s1 in
          let (s3, wrote1, u1) =
            update_leaf K G quiet d tx.from updated_from from_acc rows s2 pos path1 tree merkle
              (G.state_table.rows-tick s1 ∙ same1) in
          let back : G.state_table.Store = G.state_table.undone db.states s3 in
          let same_back : G.state_table.rows back ≡ rows = G.state_table.rows-undone db.states s3 in
          let s4 : G.state_table.Store = G.state_table.undone s3 (G.state_table.tick back) in
          let (s5, wrote2, u2) =
            update_leaf K G quiet d tx.to updated_to to_acc (G.state_table.rows s3) s4 pos path2
              u1.tree u1.merkle (G.state_table.rows-undone s3 (G.state_table.tick back)) in
          let p1 : G.params_table.Store = G.params_table.tick db.params in
          let db2 : Db G = record db { params = p1; states = s2 } in
          let db4 : Db G = record db {
            params = G.params_table.tick p1;
            states = G.state_table.tick back;
          } in
          (
            record db4 {
              states = G.state_table.tick s5;
              txs = G.tx_table.updated (by_id tx) (mark tx_status_processed) db.txs;
            },
            apply_step tx updated_from updated_to from_acc to_acc db db2 db4 s3 s5
                (get_state_by_index_lem quiet_params p tx.from from_acc (record db { states = s1 })
                  pos le from_small one
                  (subst (λ xs. Node xs (binary d tx.from) from_acc) (sym same1) at_from))
                wrote1
                (get_state_by_index_lem quiet_params p tx.to to_acc (record db2 { states = back })
                  pos le to_small (G.params_table.rows-tick db.params ∙ one)
                  (subst (λ xs. Node xs (binary d tx.to) to_acc) (sym same_back) at_to))
                wrote2,
            subst (Applied K G d tx updated_from updated_to rows) (sym (G.state_table.rows-tick s5))
                (Applied-both K G quiet d tx updated_from updated_to from_acc to_acc rows
                  (G.state_table.rows s3) (G.state_table.rows s5)
                  (λ e. apart (binary_injective d tx.from tx.to from_small to_small e)) path1 path2
                  u1 u2),
            G.tx_table.rows-updated (by_id tx) (mark tx_status_processed) db.txs
                ∙ ap
                    (λ b.
                      map_where (λ row. b || list_eq row.id tx.id) (mark tx_status_processed)
                        (G.tx_table.rows db.txs))
                    (list_eq_ne tx.id [] named),
          )
