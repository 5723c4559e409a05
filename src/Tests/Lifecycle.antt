-- ===== src/Tests/Lifecycle.antt =====
-- Deposits from their events to the leaves of a tree of depth two, and a transfer between two leaves.
use reddit_commander.Prelude.{
  ℕ, ◌+◌, ◌≡◌, refl, inl, inr, arith, List, [], ◌∷◌, length, All, ok, codes, list_eq,
}
use reddit_commander.Bytes.{to_string, hex_to_byte_array, bytes_to_byte_array}
use reddit_commander.Bytes.Hex.{encode, decode}
use reddit_commander.NodePath.{solidity_path_to_node_path, uint_to_string, format_bits}
use reddit_commander.NodePath.Spine.{from_leaf}
use reddit_commander.Merkle.{zero_value_leaf}
use reddit_commander.Gorm.{◌>>◌, map_where}
use reddit_commander.Gorm.Memory.{reliable-IsQuiet}
use reddit_commander.State.{UserState}
use reddit_commander.State.Rows.{Rows, Node}
use reddit_commander.State.Climb.{climb}
use reddit_commander.Params.{Params}
use reddit_commander.Constants.{tx_status_processed}
use reddit_commander.Tx.{Tx, mark}
use reddit_commander.Tx.Apply.{apply}
use reddit_commander.Tx.Applied.{apply-Applied}
use reddit_commander.Tx.Leaves.{Applied}
use reddit_commander.Database.{Db}
use reddit_commander.Deposit.{get_deposit_node_and_siblings, finalise_deposits_and_add_batch}
use reddit_commander.Deposit.Finalise.{Entered}
use reddit_commander.Deposit.Sound.{Placed}
use reddit_commander.Deposit.Settled.{Shaped}
use reddit_commander.Deposit.Candidate.{get_deposit_node_and_siblings-climb}
use reddit_commander.Deposit.Root.{finalise_deposits_and_add_batch-Entered}
use reddit_commander.Listener.{
  Chain, Log, process_deposit_subtree_created, process_deposit_finalised,
}
use reddit_commander.Listener.Lifecycle.{queue_all}
use reddit_commander.Listener.Subtree.{Deposited}
use reddit_commander.Listener.Deposited.{deposits-Deposited}
use reddit_commander.Tests.Fixtures.{toy, small_rows, small-IsTree, small-IsMerkle}
use reddit_commander.Tests.Stores.{stored, quiet_tables, some_params, some_db, chain, transfer_tx}
use reddit_commander.Tests.Deposits.{
  inner, hash_0, hash_1, tree_rows, four_leaves-Sound, deposit, deposit_rows, deposit_db,
  deposit-Sound,
}

abbrev empty_log : Log
empty_log = record { topics = []; log_data = []; tx_hash = [] }

-- A chain whose logs are the events of one deposit.
abbrev deposit_chain : Chain
deposit_chain = record chain {
  unpack_queued = λ v_log. ok (record { account_id = 3; payload = 4 ∷ 2 ∷ [] });
  unpack_ready = λ v_log. ok (record { root = zero_value_leaf });
  unpack_finalised =
      λ v_log. ok (record { deposit_sub_tree_root = zero_value_leaf; path_to_sub_tree = 1 });
}

abbrev tree_db : Db quiet_tables
tree_db = record some_db { states = stored tree_rows }

Shaped-levels :
    (rows : Rows)
    → All (Placed 2) rows
    → All (λ r. r.level ≡ length r.path) rows
    → All (Shaped 2) rows
Shaped-levels [] h k = tt
Shaped-levels (r ∷ rows) h k = (record { placed = h.0; level = k.0 }, Shaped-levels rows h.1 k.1)

deposits-Deposited_example :
    (db' : Db quiet_tables) × ((queue_all toy deposit_chain quiet_tables (empty_log ∷ [])
          >> process_deposit_subtree_created toy deposit_chain quiet_tables empty_log
          >> process_deposit_finalised toy deposit_chain quiet_tables empty_log)
        tree_db
      ≡ (ok tt, db'))
    × Deposited toy deposit_chain quiet_tables 2 1
        (record { account_id = 3; payload = 4 ∷ 2 ∷ [] } ∷ [])
        tree_rows
        db'.states.held
deposits-Deposited_example =
    deposits-Deposited toy deposit_chain quiet_tables (reliable-IsQuiet UserState)
      (reliable-IsQuiet Params) some_params 1 (record { account_id = 3; payload = 4 ∷ 2 ∷ [] } ∷ [])
      (empty_log ∷ []) empty_log empty_log zero_value_leaf tree_db (refl, tt) refl refl refl
      (omega arith) (omega arith) (omega arith) (omega arith) four_leaves-Sound
      (Shaped-levels tree_rows four_leaves-Sound.placed
        (refl, (refl, (refl, (refl, (refl, (refl, (refl, tt))))))))
      (refl, (refl, (refl, (refl, (refl, (refl, (refl, tt))))))) (refl, (refl, tt)) (omega arith)

finalise_deposits_and_add_batch-Entered_example :
    (top : UserState) × (db' : Db quiet_tables) × (finalise_deposits_and_add_batch toy quiet_tables
        zero_value_leaf 1 deposit_db
      ≡ (ok top.hash, db'))
    × Node db'.states.held [] top
    × All (Shaped 2) db'.states.held
    × Entered toy quiet_tables.state_table 2 0
        (codes "10" ∷ codes "11" ∷ [])
        (deposit ∷ [])
        deposit_rows
        db'.states.held
unfolding solidity_path_to_node_path uint_to_string format_bits to_string encode
finalise_deposits_and_add_batch-Entered_example =
    finalise_deposits_and_add_batch-Entered toy quiet_tables (reliable-IsQuiet UserState)
      (reliable-IsQuiet Params) some_params 1 zero_value_leaf (codes "1") deposit_db refl
      (omega arith) (omega arith) (omega arith) refl deposit-Sound
      (Shaped-levels deposit_rows deposit-Sound.placed
        (refl, (refl, (refl, (refl, (refl, (refl, (refl, (refl, tt)))))))))
      (refl, (refl, tt)) (omega arith)

get_deposit_node_and_siblings-climb_example :
    (node : UserState) × (bits : List ℕ) × (sibs : List UserState) × (db' : Db quiet_tables)
    × (get_deposit_node_and_siblings toy quiet_tables tree_db ≡ (ok (node, sibs), db'))
    × (db'.states.held ≡ tree_rows)
    × Node tree_rows (from_leaf bits) node
    × (length bits + 1 ≡ 2)
    × (climb toy bits hash_1 sibs ≡ hash_0)
unfolding to_string encode hex_to_byte_array decode bytes_to_byte_array
get_deposit_node_and_siblings-climb_example =
    get_deposit_node_and_siblings-climb toy quiet_tables (reliable-IsQuiet UserState)
      (reliable-IsQuiet Params) some_params (inner (codes "0") 1 hash_1) (inner [] 0 hash_0)
      (inner (codes "1") 1 hash_1 ∷ []) tree_db (omega arith) (omega arith) refl
      four_leaves-Sound.tree four_leaves-Sound.merkle
      (
        λ e. ((inl refl, (inl refl, tt)), refl),
        (
          λ e. ((inl refl, (inr refl, tt)), refl),
          (
            λ e. ((inr refl, (inl refl, tt)), refl),
            (
              λ e. ((inr refl, (inr refl, tt)), refl),
              (λ e. ((inl refl, tt), refl), (λ e. ((inr refl, tt), refl), (λ e. (tt, refl), tt))),
            ),
          ),
        ),
      )
      refl refl

abbrev deep_params : Params
deep_params = record some_params { max_depth = 1 }

abbrev small_db : Db quiet_tables
small_db = record some_db { states = stored small_rows; params = stored (deep_params ∷ []) }

apply-Applied_example :
    (db' : Db quiet_tables) × (apply toy quiet_tables transfer_tx (5 ∷ []) (6 ∷ []) small_db
      ≡ (ok tt, db'))
    × Applied toy quiet_tables 1 transfer_tx (5 ∷ []) (6 ∷ []) small_rows db'.states.held
    × (db'.txs.held
        ≡ map_where
            (λ row. list_eq row.id (codes "a"))
            (mark tx_status_processed)
            small_db.txs.held)
apply-Applied_example =
    apply-Applied toy quiet_tables (reliable-IsQuiet UserState) (reliable-IsQuiet Params)
      (reliable-IsQuiet Tx) deep_params transfer_tx (5 ∷ []) (6 ∷ []) small_db (omega arith)
      (omega arith) (omega arith) (omega arith) (omega arith) (λ e. cc) refl small-IsTree
      small-IsMerkle
