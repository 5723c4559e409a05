-- ===== src/Deposit/Harmless.antt =====
-- core/DepositTree.go: the search for the node that a deposit subtree is to replace never panics.
use reddit_commander.Prelude.{ℕ, ◌<◌, ◌≡◌, ◌≢◌, refl, ap, List, [], ◌∷◌, Outcome, panic}
use reddit_commander.Bytes.{Str, to_string}
use reddit_commander.Merkle.{Crypto}
use reddit_commander.Merkle.Defaults.{empty_root}
use reddit_commander.Gorm.{Exec, IsQuiet, pure, ◌>>=◌}
use reddit_commander.Gorm.Keeps.{Harmless, Harmless-pure, Harmless-bind}
use reddit_commander.State.{UserState, get_siblings, get_deposit_sub_tree_root}
use reddit_commander.State.Rows.{Rows}
use reddit_commander.State.Harmless.{get_deposit_sub_tree_root-Harmless, get_siblings-Harmless}
use reddit_commander.Params.{Params}
use reddit_commander.Params.Writes.{get_params_one}
use reddit_commander.Database.{Tables, Db, on_states}
use reddit_commander.Deposit.{minus_uint64, get_deposit_node_and_siblings}
use reddit_commander.Deposit.Candidate.{default_hashes_lem}

module _ (K : Crypto) (G : Tables) where
  -- The rows of the state tree, and the parameters.
  abbrev shown : Db G → Rows × G.params_table.Store
  shown db = (G.state_table.rows db.states, db.params)

  on_states-Harmless {ℓ} :
      {A : Type ℓ} (m : Exec G.state_table.Store A)
      → Harmless G.state_table.rows m
      → Harmless shown (on_states G m)
  on_states-Harmless m h db = ((h db.states).0, ap (λ rows. (rows, db.params)) (h db.states).1)

  search : Str → ℕ → Exec (Db G) (UserState × List UserState)
  search hash level = do
    node ← on_states G (get_deposit_sub_tree_root K G.state_table hash level)
    siblings ← on_states G (get_siblings K G.state_table node.path)
    pure (node, siblings)

  search-Harmless : (hash : Str) (level : ℕ) → Harmless shown (search hash level)
  unfolding search
  search-Harmless hash level =
      Harmless-bind shown {B = UserState × List UserState}
        (on_states G (get_deposit_sub_tree_root K G.state_table hash level)) _
        (on_states-Harmless _ (get_deposit_sub_tree_root-Harmless K G.state_table hash level))
        λ node.
          Harmless-bind shown {B = UserState × List UserState}
            (on_states G (get_siblings K G.state_table node.path)) _
            (on_states-Harmless _ (get_siblings-Harmless K G.state_table node.path))
            λ siblings. Harmless-pure shown (node, siblings)

  -- With one row of parameters, of a height below 100, and whatever statements on the states fail.
  pub get_deposit_node_and_siblings-Fine :
      (p : Params) (db : Db G)
      → IsQuiet G.params_table
      → p.max_deposit_sub_tree_height < 100
      → G.params_table.rows db.params ≡ p ∷ []
      → (r : Outcome (UserState × List UserState)) × (db' : Db G) × (get_deposit_node_and_siblings K
            G db
          ≡ (r, db'))
        × (r ≢ panic)
        × (G.state_table.rows db'.states ≡ G.state_table.rows db.states)
        × (db'.params ≡ G.params_table.tick db.params)
  unfolding get_deposit_node_and_siblings search
  get_deposit_node_and_siblings-Fine p db quiet small one =
      let h : ℕ = p.max_deposit_sub_tree_height in
      let (hashes, made, entry) = default_hashes_lem K h small in
      let db2 : Db G = record db { params = G.params_table.tick db.params } in
      let hash : Str = to_string (empty_root K h) in
      let (fine, same) = search-Harmless hash (minus_uint64 p.max_depth h) db2 in
      (
        (search hash (minus_uint64 p.max_depth h) db2).0,
        (search hash (minus_uint64 p.max_depth h) db2).1,
        rw (get_params_one G.params_table quiet p db.params one, made, entry) refl,
        fine,
        ap (λ x. x.0) same,
        ap (λ x. x.1) same,
      )
