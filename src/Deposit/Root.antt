-- ===== src/Deposit/Root.antt =====
-- core/DepositTree.go: the root that `FinaliseDepositsAndAddBatch` returns.
use reddit_commander.Prelude.{
  ℕ, suc, ◌-◌, ◌^◌, ◌≤◌, ◌<◌, ◌≡◌, refl, sym, ap, subst, Bool-cases, inl, inr, List, [], ◌∷◌,
  List-cases, length, All, select, arith, ok, ◌==◌, ==_ne,
}
use reddit_commander.Bytes.{Str, ByteArray}
use reddit_commander.NodePath.{solidity_path_to_node_path}
use reddit_commander.Merkle.{Crypto}
use reddit_commander.Gorm.{Table, IsQuiet}
use reddit_commander.State.{UserState, has_path, get_root}
use reddit_commander.State.Rows.{Rows, Node}
use reddit_commander.Params.{Params}
use reddit_commander.Database.{Tables, Db}
use reddit_commander.Deposit.{is_terminal_under, finalise_deposits_and_add_batch}
use reddit_commander.Deposit.Sound.{Sound}
use reddit_commander.Deposit.Finalise.{Entered}
use reddit_commander.Deposit.Nodes.{paths, IsEmptyLeaf}
use reddit_commander.Deposit.Enter.{waiting_under, finalise_deposits-Entered}
use reddit_commander.Deposit.Settled.{Shaped, KeepsShape, KeepsShape-Closed}
use reddit_commander.Deposit.Calls.{finalise_deposits-Keeps}

root_test : (row : UserState) → row.level ≡ length row.path → (row.level == 0) ≡ has_path [] row
root_test row e = elim (List-cases row.path) [
  | inl empty ↦ rw (e, empty) refl
  | inr (c, q, more) ↦ rw (e, more) (==_ne (suc (length q)) 0 (λ z. omega (arith, z)))
]

-- The row of level 0 is the one with the empty path.
select-root :
    (d : ℕ) (rows : Rows)
    → All (Shaped d) rows
    → select (λ row. row.level == 0) rows ≡ select (has_path []) rows
select-root d [] h = refl
select-root d (x ∷ rows) h = elim (Bool-cases (has_path [] x)) [
  | inl e ↦ rw (root_test x h.0.level, e) (ap (λ ys. x ∷ ys) (select-root d rows h.1))
  | inr e ↦ rw (root_test x h.0.level, e) (select-root d rows h.1)
]

pub get_root_lem :
    (K : Crypto) (T : Table UserState) (d : ℕ) (root : UserState) (s : T.Store)
    → IsQuiet T
    → All (Shaped d) (T.rows s)
    → Node (T.rows s) [] root
    → get_root K T s ≡ (ok root, T.tick s)
unfolding get_root
get_root_lem K T d root s quiet shaped at =
    rw
      (
        T.find_one_lem (λ row. row.level == 0) s,
        quiet s,
        select-root d (T.rows s) shaped,
        at,
        T.pick_one root,
      )
      refl

module _ (K : Crypto) (G : Tables) (quiet : IsQuiet G.state_table)
    (quiet_params : IsQuiet G.params_table) where
  -- On a full state tree whose inner nodes join their children, of the depth of the parameters' row,
  -- of 2 to 64, where every row's level is the length of its path and every pending row is unplaced:
  -- for an index of the level above the leaves, with the leaves under its path empty and enough for the
  -- accounts that wait with the deposit root, and where no statement fails, `FinaliseDepositsAndAddBatch`
  -- enters the accounts as `FinaliseDeposits` does, and returns the hash of the root of the tree that it
  -- leaves.
  pub finalise_deposits_and_add_batch-Entered :
      (p : Params) (index : ℕ) (root : ByteArray) (under : Str) (db : Db G)
      → G.params_table.rows db.params ≡ p ∷ []
      → 1 < p.max_depth
      → p.max_depth ≤ 64
      → index < 2 ^ (p.max_depth - 1)
      → solidity_path_to_node_path index (p.max_depth - 1) ≡ ok under
      → Sound K p.max_depth (G.state_table.rows db.states)
      → All (Shaped p.max_depth) (G.state_table.rows db.states)
      → All IsEmptyLeaf (select (is_terminal_under under) (G.state_table.rows db.states))
      → length (waiting_under root (G.state_table.rows db.states))
        ≤ length (select (is_terminal_under under) (G.state_table.rows db.states))
      → (top : UserState) × (db' : Db G) × (finalise_deposits_and_add_batch K G root index db
          ≡ (ok top.hash, db'))
        × Node (G.state_table.rows db'.states) [] top
        × All (Shaped p.max_depth) (G.state_table.rows db'.states)
        × Entered K G.state_table p.max_depth 0
            (paths (select (is_terminal_under under) (G.state_table.rows db.states)))
            (waiting_under root (G.state_table.rows db.states))
            (G.state_table.rows db.states)
            (G.state_table.rows db'.states)
  unfolding finalise_deposits_and_add_batch
  finalise_deposits_and_add_batch-Entered p index root under db one lo hi small made sound shaped
        empty room =
      let rows : Rows = G.state_table.rows db.states in
      let d : ℕ = p.max_depth in
      let nodes : List Str = paths (select (is_terminal_under under) rows) in
      let accounts : Rows = waiting_under root rows in
      let (db1, runs, entered) =
        finalise_deposits-Entered K G p index root under db quiet quiet_params one lo hi small made
          sound empty room in
      let shaped1 : All (Shaped d) (G.state_table.rows db1.states) =
        subst (λ r. All (Shaped d) (G.state_table.rows r.1.states)) runs
          (finalise_deposits-Keeps K G (KeepsShape d) (KeepsShape-Closed K G.state_table d) index
            root db shaped) in
      let (top, at, hash) = entered.sound.tree [] tt (omega arith) in
      let same : G.state_table.rows (G.state_table.tick db1.states)
          ≡ G.state_table.rows db1.states =
        G.state_table.rows-tick db1.states in
      (
        top,
        record db1 { states = G.state_table.tick db1.states },
        rw (runs, get_root_lem K G.state_table d top db1.states quiet shaped1 at) refl,
        subst (λ xs. Node xs [] top) (sym same) at,
        subst (All (Shaped d)) (sym same) shaped1,
        subst (Entered K G.state_table d 0 nodes accounts rows) (sym same) entered,
      )
