-- ===== src/Listener/Deposited.antt =====
-- listener/processors.go: a deposit subtree, from the events of its deposits to the leaves.
use reddit_commander.Prelude.{
  ℕ, ◌-◌, ◌%◌, ◌^◌, ◌≤◌, ◌<◌, ◌≡◌, refl, sym, ap, ◌∙◌, subst, List, [], ◌∷◌, map, length, All,
  select, arith, ok,
}
use reddit_commander.Bytes.{ByteArray}
use reddit_commander.NodePath.{uint64}
use reddit_commander.NodePath.Binary.{binary, solidity_path_lem}
use reddit_commander.NodePath.Index.{uint64_bound}
use reddit_commander.Merkle.{Crypto}
use reddit_commander.Gorm.{IsQuiet, map_where, ◌>>◌}
use reddit_commander.State.Rows.{Rows}
use reddit_commander.Params.{Params}
use reddit_commander.Database.{Tables, Db}
use reddit_commander.Deposit.{is_terminal_under}
use reddit_commander.Deposit.Sound.{Sound}
use reddit_commander.Deposit.Finalise.{Entered}
use reddit_commander.Deposit.Nodes.{paths, IsEmptyLeaf}
use reddit_commander.Deposit.Enter.{waiting_under}
use reddit_commander.Deposit.Closed.{is_pending, attach}
use reddit_commander.Deposit.Settled.{Shaped}
use reddit_commander.Deposit.Queue.{NonePending, attach_beside}
use reddit_commander.Deposit.Root.{finalise_deposits_and_add_batch-Entered}
use reddit_commander.Listener.{
  Chain, Log, DepositQueued, DepositsFinalised, process_deposit_subtree_created,
  process_deposit_finalised,
}
use reddit_commander.Listener.Lifecycle.{queue_all, Unpacked, pending_row, queued_all, ready}
use reddit_commander.Listener.Subtree.{
  Deposited, Deposited-Entered, Finalisable, leaves_under, pending-Waiting, ready_rows,
  ready_rows-Finalisable,
}

module _ (K : Crypto) (C : Chain) (G : Tables) where
  module _ (quiet : IsQuiet G.state_table) (quiet_params : IsQuiet G.params_table) where
    -- The event of a finalised subtree.
    finalised :
        (p : Params) (index : ℕ) (v_log : Log) (event : DepositsFinalised) (db : Db G)
        → C.unpack_finalised v_log ≡ ok event
        → event.path_to_sub_tree ≡ index
        → G.params_table.rows db.params ≡ p ∷ []
        → 1 < p.max_depth
        → p.max_depth ≤ 64
        → index < 2 ^ (p.max_depth - 1)
        → Finalisable K C G p.max_depth index event.deposit_sub_tree_root
            (G.state_table.rows db.states)
        → (db' : Db G) × (process_deposit_finalised K C G v_log db ≡ (ok tt, db'))
          × All (Shaped p.max_depth) (G.state_table.rows db'.states)
          × Entered K G.state_table p.max_depth 0
              (paths (
                select
                  (is_terminal_under (binary (p.max_depth - 1) index))
                  (G.state_table.rows db.states)))
              (waiting_under event.deposit_sub_tree_root (G.state_table.rows db.states))
              (G.state_table.rows db.states)
              (G.state_table.rows db'.states)
    unfolding process_deposit_finalised
    finalised p index v_log event db e same one lo hi small (sound, shaped, empty, room) =
        let (top, db', runs, at, shaped', done) =
          finalise_deposits_and_add_batch-Entered K G quiet quiet_params p index
            event.deposit_sub_tree_root (binary (p.max_depth - 1) index) db one lo hi small
            (solidity_path_lem index (p.max_depth - 1) (omega arith) (omega arith) small) sound
            shaped empty room in
        let whole : event.path_to_sub_tree % uint64 ≡ index =
          omega (arith, same, uint64_bound (p.max_depth - 1) index (omega arith) small) in
        (db', rw (e, whole, runs) refl, shaped', done)

    -- On a full tree whose inner nodes join their children, of the depth of the parameters' row, of 2
    -- to 64 and not below the height of a subtree, with no deposit pending: let deposits be queued,
    -- then their subtree be ready and then finalised under an index of the level above the leaves,
    -- where the leaves under it are empty and are enough for the deposits, and let no statement fail.
    -- All handlers return. Then the data of each deposit, unless empty, and its hash are in the leaf
    -- of its place, whose other columns are kept; every other leaf is as before, and the tree is
    -- again full and joined.
    pub deposits-Deposited :
        (p : Params) (index : ℕ) (events : List DepositQueued) (logs : List Log)
        (ready_log final_log : Log) (root : ByteArray) (db : Db G)
        → Unpacked K C G logs events
        → C.unpack_ready ready_log ≡ ok (record { root = root })
        → C.unpack_finalised final_log
          ≡ ok (record { deposit_sub_tree_root = root; path_to_sub_tree = index })
        → G.params_table.rows db.params ≡ p ∷ []
        → 1 < p.max_depth
        → p.max_depth ≤ 64
        → p.max_deposit_sub_tree_height ≤ p.max_depth
        → index < 2 ^ (p.max_depth - 1)
        → Sound K p.max_depth (G.state_table.rows db.states)
        → All (Shaped p.max_depth) (G.state_table.rows db.states)
        → NonePending (G.state_table.rows db.states)
        → All IsEmptyLeaf (
            select
              (is_terminal_under (binary (p.max_depth - 1) index))
              (G.state_table.rows db.states))
        → length events
          ≤ length (leaves_under K C G p.max_depth index (G.state_table.rows db.states))
        → (db' : Db G) × ((queue_all K C G logs
                >> process_deposit_subtree_created K C G ready_log
                >> process_deposit_finalised K C G final_log)
              db
            ≡ (ok tt, db'))
          × Deposited K C G p.max_depth index events
              (G.state_table.rows db.states)
              (G.state_table.rows db'.states)
    deposits-Deposited p index events logs ready_log final_log root db unpacked ready_e final_e one
          lo hi height small sound shaped settled empty room =
        let rows : Rows = G.state_table.rows db.states in
        let d : ℕ = p.max_depth in
        let (s1, runs1, rows1) = queued_all K C G quiet logs events db unpacked in
        let db1 : Db G = record db { states = s1 } in
        let (db2, runs2, rows2, one2) =
          ready K C G quiet quiet_params p ready_log (record { root = root }) db1 ready_e
            (omega arith) one in
        let all_rows : Rows = ready_rows K C G d index root events rows lo hi small sound settled in
        let same2 : G.state_table.rows db2.states ≡ all_rows =
          rows2
          ∙ ap (map_where is_pending (attach G.state_table root)) rows1
          ∙ attach_beside rows (map (pending_row K C G) events) (pending-Waiting K C G events)
              settled G.state_table root in
        let (db3, runs3, shaped3, done) =
          finalised p index final_log
            (record { deposit_sub_tree_root = root; path_to_sub_tree = index }) db2 final_e refl
            one2 lo hi small
            (subst (Finalisable K C G d index root) (sym same2) (
              ready_rows-Finalisable K C G d index root events rows lo hi small sound settled shaped
                empty room)) in
        (
          db3,
          rw (runs1, runs2) runs3,
          Deposited-Entered K C G d index root events rows lo hi small sound settled
              (G.state_table.rows db3.states) shaped3
              (subst
                (λ xs.
                  Entered K G.state_table d 0
                    (paths (select (is_terminal_under (binary (d - 1) index)) xs))
                    (waiting_under root xs) xs (G.state_table.rows db3.states))
                same2 done),
        )
