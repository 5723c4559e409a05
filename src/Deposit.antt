-- ===== src/Deposit.antt =====
-- core/DepositTree.go: the accounts of a deposit subtree take the place of empty leaves.
pub mod Sound
pub mod Finalise
pub mod Nodes
pub mod Enter
pub mod Closed
pub mod Settled
pub mod Candidate
pub mod Calls
pub mod Root
pub mod Queue
pub mod Harmless
use reddit_commander.Prelude.{
  ℕ, zero, suc, ◌+◌, ◌-◌, ◌%◌, Bool, true, false, ◌&&◌, List, [], ◌∷◌, get_elem?, take, Outcome, ok,
  err, panic, bind, or_panic, leaf_not_zero, ◌==◌, list_eq, if◌then◌else◌,
}
use reddit_commander.Constants.{status_active, status_pending, type_terminal}
use reddit_commander.Bytes.{Str, ByteArray, to_string}
use reddit_commander.NodePath.{uint64, solidity_path_to_node_path}
use reddit_commander.Merkle.{Crypto, zero_value_leaf, gen_default_hashes}
use reddit_commander.Gorm.{Exec, Table, pure, lift, ◌>>=◌, ◌>>◌}
use reddit_commander.State.{
  UserState, update_path, create_account_hash, update_state, get_siblings, get_root,
  get_deposit_sub_tree_root, delete_pending_account, get_pending_acc_by_deposit_root,
}
use reddit_commander.Params.{get_params}
use reddit_commander.Database.{Tables, Db, on_states, on_params}

-- `defaultHashes`, which `init` fills.
unfoldable pub default_hashes : Crypto → Outcome (List ByteArray)
default_hashes K = gen_default_hashes K 100

-- `a - b` of two uint64.
abbrev pub minus_uint64 : ℕ → ℕ → ℕ
minus_uint64 a b = (a + uint64 - b % uint64) % uint64

-- `path LIKE 'prefix%'`, for a prefix of digits.
abbrev pub has_prefix : Str → Str → Bool
has_prefix [] path = true
has_prefix (c ∷ prefix) [] = false
has_prefix (c ∷ prefix) (x ∷ path) = c == x && has_prefix prefix path

abbrev pub is_terminal_under : Str → UserState → Bool
is_terminal_under prefix row = has_prefix prefix row.path && row.node_type == type_terminal

-- The paths of the rows, all of which have to be empty leaves.
unfoldable pub empty_paths : List UserState → Outcome (List Str)
empty_paths [] = ok []
empty_paths (account ∷ accounts) =
    if list_eq account.hash (to_string zero_value_leaf)
    then bind (empty_paths accounts) (λ terminal_nodes. ok (account.path ∷ terminal_nodes))
    else err leaf_not_zero

module _ (K : Crypto) (T : Table UserState) where
  unfoldable pub get_all_terminal_nodes : Str → Exec T.Store (List Str)
  unfolding empty_paths
  get_all_terminal_nodes path_to_deposit_sub_tree = do
    accounts ← T.find_all (is_terminal_under path_to_deposit_sub_tree)
    lift (empty_paths accounts)

  unfoldable pub get_pending_deposits : ℕ → Exec T.Store (List UserState)
  get_pending_deposits number_of_accs = do
    accounts ← T.find_all (λ row. row.status == status_pending)
    pure (take number_of_accs accounts)

  -- One account of the loop of `FinaliseDeposits`.
  unfoldable pub finalise_account : UserState → Str → Exec T.Store (Unit {0})
  finalise_account acc terminal_node = do
    update_state K T
        (create_account_hash K (update_path terminal_node (record acc { status = status_active })))
    delete_pending_account K T acc.account_id

  -- The loop of `FinaliseDeposits` from account `i`: without a node for it the index panics.
  unfoldable pub finalise_loop : List Str → ℕ → List UserState → Exec T.Store (Unit {0})
  unfolding finalise_account
  finalise_loop terminal_nodes i [] = pure tt
  finalise_loop terminal_nodes i (acc ∷ accounts) = do
    terminal_node ← lift (or_panic (get_elem? terminal_nodes i))
    finalise_account acc terminal_node
    finalise_loop terminal_nodes (i + 1) accounts

  -- `FinaliseDeposits` with the parameters read.
  unfoldable pub finalise_at : ℕ → ByteArray → ℕ → Exec T.Store (Unit {0})
  unfolding get_all_terminal_nodes finalise_loop
  finalise_at path_to_deposit_sub_tree deposit_root max_depth = do
    accounts ← get_pending_acc_by_deposit_root K T deposit_root
    get_terminal_nodes_of ←
        lift (solidity_path_to_node_path path_to_deposit_sub_tree (minus_uint64 max_depth 1))
    terminal_nodes ← get_all_terminal_nodes get_terminal_nodes_of
    finalise_loop terminal_nodes 0 accounts

module _ (K : Crypto) (G : Tables) where
  unfoldable pub get_deposit_node_and_siblings : Exec (Db G) (UserState × List UserState)
  unfolding default_hashes
  get_deposit_node_and_siblings = do
    params ← on_params G (get_params G.params_table)
    hashes ← lift (default_hashes K)
    expected_hash ← lift (or_panic (get_elem? hashes params.max_deposit_sub_tree_height))
    node ← on_states G (
        get_deposit_sub_tree_root K G.state_table (to_string expected_hash)
          (minus_uint64 params.max_depth params.max_deposit_sub_tree_height))
    siblings ← on_states G (get_siblings K G.state_table node.path)
    pure (node, siblings)

  unfoldable pub finalise_deposits : ℕ → ByteArray → Exec (Db G) (Unit {0})
  unfolding finalise_at
  finalise_deposits path_to_deposit_sub_tree deposit_root = do
    params ← on_params G (get_params G.params_table)
    on_states G (finalise_at K G.state_table path_to_deposit_sub_tree deposit_root params.max_depth)

  unfoldable pub finalise_deposits_and_add_batch : ByteArray → ℕ → Exec (Db G) Str
  unfolding finalise_deposits
  finalise_deposits_and_add_batch deposit_root path_to_deposit_sub_tree = do
    finalise_deposits path_to_deposit_sub_tree deposit_root
    root_account ← on_states G (get_root K G.state_table)
    pure root_account.hash
