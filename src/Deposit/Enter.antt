-- ===== src/Deposit/Enter.antt =====
-- core/DepositTree.go: `FinaliseDeposits` as a whole.
use reddit_commander.Prelude.{
  ℕ, suc, ◌-◌, ◌^◌, ◌≤◌, ◌<◌, ◌≡◌, refl, sym, ap, ◌∙◌, subst, ◌&&◌, List, [], ◌∷◌, map, length, All,
  select, arith, ok, ◌==◌, list_eq,
}
use reddit_commander.Bytes.{Str, ByteArray, to_string}
use reddit_commander.Constants.{status_pending}
use reddit_commander.NodePath.{solidity_path_to_node_path}
use reddit_commander.Merkle.{Crypto}
use reddit_commander.Gorm.{Table, IsQuiet}
use reddit_commander.State.{UserState, get_pending_acc_by_deposit_root}
use reddit_commander.State.Rows.{Rows}
use reddit_commander.Deposit.{minus_uint64, is_terminal_under, get_all_terminal_nodes, finalise_at}
use reddit_commander.Deposit.Sound.{Sound}
use reddit_commander.Deposit.Finalise.{Entered, finalise_loop-Entered}
use reddit_commander.Deposit.Nodes.{paths, IsEmptyLeaf, empty_paths_lem, under-Places}
use reddit_commander.Deposit.{finalise_deposits}
use reddit_commander.Database.{Tables, Db}
use reddit_commander.Params.{Params}
use reddit_commander.Params.Writes.{get_params_one}

-- The accounts that wait with this deposit root.
abbrev pub waiting_under : ByteArray → Rows → Rows
waiting_under root =
    select λ row.
      list_eq row.created_by_deposit_sub_tree (to_string root) && row.status == status_pending

pub length-map {ℓ κ} :
    {A : Type ℓ} {B : Type κ} (f : A → B) (xs : List A) → length (map f xs) ≡ length xs
length-map f [] = refl
length-map f (x ∷ xs) = ap suc (length-map f xs)

module _ (K : Crypto) (T : Table UserState) (quiet : IsQuiet T) where
  get_all_terminal_nodes_lem :
      (prefix : Str) (s : T.Store)
      → All IsEmptyLeaf (select (is_terminal_under prefix) (T.rows s))
      → get_all_terminal_nodes K T prefix s
        ≡ (ok (paths (select (is_terminal_under prefix) (T.rows s))), T.tick s)
  unfolding get_all_terminal_nodes
  get_all_terminal_nodes_lem prefix s empty =
      rw (T.find_all_lem (is_terminal_under prefix) s, quiet s, empty_paths_lem _ empty) refl

  get_pending_lem :
      (root : ByteArray) (s : T.Store)
      → get_pending_acc_by_deposit_root K T root s ≡ (ok (waiting_under root (T.rows s)), T.tick s)
  unfolding get_pending_acc_by_deposit_root
  get_pending_lem root s = rw (T.find_all_lem _ s, quiet s) refl

  height_below : (d : ℕ) → 1 < d → d ≤ 64 → minus_uint64 d 1 ≡ d - 1
  height_below d lo hi = omega arith

  -- With the paths under the index found to be empty leaves, and enough of them, the waiting
  -- accounts enter the tree one by one, in the order of the two queries.
  finalise_at-Entered :
      (d index : ℕ) (root : ByteArray) (under : Str) (s : T.Store)
      → 1 < d
      → d ≤ 64
      → index < 2 ^ (d - 1)
      → solidity_path_to_node_path index (d - 1) ≡ ok under
      → Sound K d (T.rows s)
      → All IsEmptyLeaf (select (is_terminal_under under) (T.rows s))
      → length (waiting_under root (T.rows s))
        ≤ length (select (is_terminal_under under) (T.rows s))
      → (s' : T.Store) × (finalise_at K T index root d s ≡ (ok tt, s'))
        × Entered K T d 0
            (paths (select (is_terminal_under under) (T.rows s)))
            (waiting_under root (T.rows s))
            (T.rows s)
            (T.rows s')
  unfolding finalise_at
  finalise_at-Entered d index root under s lo hi small made sound empty room =
      let s1 : T.Store = T.tick s in
      let s2 : T.Store = T.tick s1 in
      let same1 : T.rows s1 ≡ T.rows s = T.rows-tick s in
      let same2 : T.rows s2 ≡ T.rows s = T.rows-tick s1 ∙ same1 in
      let found : Rows = select (is_terminal_under under) (T.rows s) in
      let (s', runs, done) =
        finalise_loop-Entered K T quiet d 0 (paths found) (waiting_under root (T.rows s)) s2
          (omega arith) (under-Places K T d index under (T.rows s) lo hi small made sound)
          (omega (arith, room, length-map (λ row. row.path) found))
          (subst (Sound K d) (sym same2) sound) in
      (
        s',
        rw (get_pending_lem root s, height_below d lo hi, made, nodes_at s1 same1) runs,
        subst
            (λ rows. Entered K T d 0 (paths found) (waiting_under root (T.rows s)) rows (T.rows s'))
            same2 done,
      )
    where
      nodes_at :
          (s1 : T.Store)
          → T.rows s1 ≡ T.rows s
          → get_all_terminal_nodes K T under s1
            ≡ (ok (paths (select (is_terminal_under under) (T.rows s))), T.tick s1)
      nodes_at s1 same =
          get_all_terminal_nodes_lem under s1 (
            subst (λ rows. All IsEmptyLeaf (select (is_terminal_under under) rows)) (sym same)
              empty)
          ∙ ap (λ rows. (ok (paths (select (is_terminal_under under) rows)), T.tick s1)) same

-- On a full state tree whose inner nodes join their children, of the depth of the parameters' row, of
-- 2 to 64, with every pending row unplaced: for an index of the level above the leaves, where the
-- leaves under its path are empty and are enough for the accounts that wait with this root, and no
-- statement fails, `FinaliseDeposits` returns. Each account's data, unless empty, and its hash are then
-- in the leaf of its place, which keeps its other columns, every other leaf is as before, and the tree
-- is again full and joined.
pub finalise_deposits-Entered :
    (K : Crypto) (G : Tables) (p : Params) (index : ℕ) (root : ByteArray) (under : Str) (db : Db G)
    → IsQuiet G.state_table
    → IsQuiet G.params_table
    → G.params_table.rows db.params ≡ p ∷ []
    → 1 < p.max_depth
    → p.max_depth ≤ 64
    → index < 2 ^ (p.max_depth - 1)
    → solidity_path_to_node_path index (p.max_depth - 1) ≡ ok under
    → Sound K p.max_depth (G.state_table.rows db.states)
    → All IsEmptyLeaf (select (is_terminal_under under) (G.state_table.rows db.states))
    → length (waiting_under root (G.state_table.rows db.states))
      ≤ length (select (is_terminal_under under) (G.state_table.rows db.states))
    → (db' : Db G) × (finalise_deposits K G index root db ≡ (ok tt, db'))
      × Entered K G.state_table p.max_depth 0
          (paths (select (is_terminal_under under) (G.state_table.rows db.states)))
          (waiting_under root (G.state_table.rows db.states))
          (G.state_table.rows db.states)
          (G.state_table.rows db'.states)
unfolding finalise_deposits
finalise_deposits-Entered K G p index root under db quiet quiet_params one lo hi small made sound
      empty room =
    let (s', runs, done) =
      finalise_at-Entered K G.state_table quiet p.max_depth index root under db.states lo hi small
        made sound empty room in
    (
      record db { params = G.params_table.tick db.params; states = s' },
      rw (get_params_one G.params_table quiet_params p db.params one, runs) refl,
      done,
    )
