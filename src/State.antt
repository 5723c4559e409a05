-- ===== src/State.antt =====
-- core/state.go: the rows of the state tree and the operations on their table.
pub mod Rows
pub mod Spine
pub mod Put
pub mod Loop
pub mod Update
pub mod Climb
pub mod Init
pub mod Skeleton
pub mod Levels
pub mod Build
pub mod Leaves
pub mod Start
pub mod Harmless
use reddit_commander.Prelude.{
  ℕ, zero, suc, ◌+◌, ◌≡◌, Bool, true, false, ◌&&◌, List, [], ◌∷◌, ◌++◌, length, Outcome,
  record_not_found, ok, err, panic, bind, ◌==◌, list_eq, if◌then◌else◌,
}
use reddit_commander.Constants.{
  status_pending, status_active, status_inactive, type_terminal, type_non_terminal,
  uninitialized_path,
}
use reddit_commander.Bytes.{Str, Slice, ByteArray, to_string, hex_to_byte_array}
use reddit_commander.NodePath.{
  get_parent_path, get_other_child, get_nth_bit_from_right, gen_coordinator_path,
}
use reddit_commander.Merkle.{Crypto, get_parent}
use reddit_commander.Gorm.{Exec, Table, pure, lift, ◌>>=◌, ◌>>◌}

-- `type UserState struct`.
pub record UserState : Type 0 where
  pub account_id : ℕ
  pub state_data : Slice
  pub path : Str
  pub status : ℕ
  pub node_type : ℕ
  pub hash : Str
  pub level : ℕ
  pub created_by_deposit_sub_tree : Str

-- The zero value of the struct.
abbrev pub blank_state : UserState
blank_state = record {
  account_id = 0;
  state_data = [];
  path = [];
  status = 0;
  node_type = 0;
  hash = [];
  level = 0;
  created_by_deposit_sub_tree = [];
}

unfoldable pub update_path : Str → UserState → UserState
update_path path acc = record acc { path = path; level = length path }

unfoldable pub create_account_hash : Crypto → UserState → UserState
create_account_hash K acc = record acc { hash = K.hash_string (K.keccak256 acc.state_data) }

unfoldable pub new_user_state : Crypto → ℕ → ℕ → Str → Slice → UserState
unfolding update_path create_account_hash
new_user_state K id status path payload = create_account_hash K (
    update_path path (record blank_state {
      account_id = id;
      path = path;
      status = status;
      node_type = type_terminal;
      state_data = payload;
    }))

unfoldable pub new_state_node : Str → Str → UserState
unfolding update_path
new_state_node path hash =
    record (update_path path
      (record blank_state { path = path; status = status_active; node_type = type_non_terminal })) {
        hash = hash;
      }

unfoldable pub new_pending_user_state : Crypto → ℕ → Slice → UserState
unfolding update_path create_account_hash
new_pending_user_state K id payload = create_account_hash K (
    update_path uninitialized_path (record blank_state {
      account_id = id;
      path = uninitialized_path;
      status = status_pending;
      node_type = type_terminal;
      state_data = payload;
    }))

-- `EmptyUserState`.
unfoldable pub empty_user_state : Crypto → UserState
unfolding new_user_state
empty_user_state K = new_user_state K 0 status_inactive [] []

-- `HashToByteArray`: an unreadable hash panics.
unfoldable pub hash_to_byte_array : UserState → Outcome ByteArray
hash_to_byte_array acc = elim (hex_to_byte_array acc.hash) [
  | ok ba ↦ ok ba
  | err e ↦ panic
  | panic ↦ panic
]

-- The callers that turn every error of a query into `ErrRecordNotFound`.
abbrev pub as_not_found : {S A : Type 0} → Outcome A × S → Outcome A × S
as_not_found (ok a, s) = (ok a, s)
as_not_found (err e, s) = (err record_not_found, s)
as_not_found (panic, s) = (panic, s)

-- `GetDepositSubTreeRoot` tests for a missing record only: after any other error it returns the
-- zero value and no error.
abbrev pub blank_unless_not_found : {S : Type 0} → Outcome UserState × S → Outcome UserState × S
blank_unless_not_found (ok a, s) = (ok a, s)
blank_unless_not_found (err record_not_found, s) = (err record_not_found, s)
blank_unless_not_found (err _, s) = (ok blank_state, s)
blank_unless_not_found (panic, s) = (panic, s)

abbrev pub has_path : Str → UserState → Bool
has_path p row = list_eq row.path p

module _ (K : Crypto) (T : Table UserState) where
  -- The columns that `Updates(UserState{Data: …, Hash: …})` writes.
  abbrev pub assign : Slice → Str → UserState → UserState
  assign payload hash row = record row {
    state_data = T.overwrite payload row.state_data;
    hash = T.overwrite hash row.hash;
  }

  -- `updateAccount`.
  unfoldable pub update_account : UserState → Str → Exec T.Store (Unit {0})
  update_account new_acc path = T.update (has_path path) (assign new_acc.state_data new_acc.hash)

  unfoldable pub get_state_by_path : Str → Exec T.Store UserState
  get_state_by_path path s = as_not_found (T.find_one (has_path path) s)

  -- The loop of `GetSiblings`, with the rounds left.
  get_siblings_loop : ℕ → Str → Exec T.Store (List UserState)
  get_siblings_loop zero relative_path = pure []
  get_siblings_loop (suc i) relative_path = do
    other_child ← lift (get_other_child relative_path)
    other_node ← get_state_by_path other_child
    siblings ← get_siblings_loop i (get_parent_path relative_path)
    pure (other_node ∷ siblings)

  unfoldable pub get_siblings : Str → Exec T.Store (List UserState)
  unfolding get_siblings_loop
  get_siblings path = get_siblings_loop (length path) path

  unfoldable pub update_parent_with_hash : Str → ByteArray → Exec T.Store (Unit {0})
  update_parent_with_hash path_to_parent new_hash =
      update_account (record blank_state { path = path_to_parent; hash = to_string new_hash })
        path_to_parent

  unfoldable pub update_root_node_hashes : ByteArray → Exec T.Store (Unit {0})
  update_root_node_hashes new_root =
      update_account (record blank_state { path = []; hash = to_string new_root }) []

  -- `StoreNode`: of the two children only the one that was computed is written.
  unfoldable pub store_node : ByteArray → UserState → UserState → Bool → Exec T.Store (Unit {0})
  store_node parent_hash left_node right_node is_left = do
    (if is_left
        then update_account left_node left_node.path
        else update_account right_node right_node.path)
    update_parent_with_hash (get_parent_path left_node.path) parent_hash

  -- One round of the loop of `StoreLeaf` up to the write.
  unfoldable pub store_pair : ℕ → UserState → UserState → Exec T.Store (Unit {0})
  store_pair zero computed_node sibling = do
    left ← lift (hash_to_byte_array computed_node)
    right ← lift (hash_to_byte_array sibling)
    parent_hash ← lift (get_parent K left right)
    store_node parent_hash computed_node sibling true
  store_pair (suc _) computed_node sibling = do
    left ← lift (hash_to_byte_array sibling)
    right ← lift (hash_to_byte_array computed_node)
    parent_hash ← lift (get_parent K left right)
    store_node parent_hash sibling computed_node false

  -- The loop of `StoreLeaf` from round `i`, and the write of the root after it.
  unfoldable pub store_leaf_loop : Str → ℕ → List UserState → UserState → Exec T.Store (Unit {0})
  store_leaf_loop path i [] computed_node = do
    root ← lift (hash_to_byte_array computed_node)
    update_root_node_hashes root
  store_leaf_loop path i (sibling ∷ siblings) computed_node = do
    is_computed_right_sibling ← lift (get_nth_bit_from_right path i)
    store_pair is_computed_right_sibling computed_node sibling
    parent_account ← get_state_by_path (get_parent_path computed_node.path)
    store_leaf_loop path (i + 1) siblings parent_account

  unfoldable pub store_leaf : UserState → Str → List UserState → Exec T.Store (Unit {0})
  unfolding store_leaf_loop
  store_leaf state path siblings = store_leaf_loop path 0 siblings state

  unfoldable pub update_state : UserState → Exec T.Store (Unit {0})
  update_state account = do
    siblings ← get_siblings account.path
    store_leaf (create_account_hash K account) account.path siblings

  unfoldable pub get_states_at_depth : ℕ → Exec T.Store (List UserState)
  get_states_at_depth depth = T.find_all (λ row. row.level == depth)

  unfoldable pub add_new_pending_account : UserState → Exec T.Store (Unit {0})
  add_new_pending_account acc = T.insert (acc ∷ [])

  unfoldable pub get_root : Exec T.Store UserState
  get_root s = as_not_found (T.find_one (λ row. row.level == 0) s)

  unfoldable pub get_deposit_sub_tree_root : Str → ℕ → Exec T.Store UserState
  get_deposit_sub_tree_root hash level s =
      blank_unless_not_found (T.find_one (λ row. row.level == level && list_eq row.hash hash) s)

  unfoldable pub insert_coordinator_accounts : UserState → ℕ → Exec T.Store (Unit {0})
  insert_coordinator_accounts acc depth = T.insert (
      record (create_account_hash K (update_path (gen_coordinator_path depth) acc)) {
        node_type = type_terminal;
      }
      ∷ [])

  unfoldable pub delete_pending_account : ℕ → Exec T.Store (Unit {0})
  delete_pending_account id s =
      as_not_found (T.delete (λ row. row.account_id == id && row.status == status_pending) s)

  unfoldable pub attach_deposit_info : ByteArray → Exec T.Store (Unit {0})
  attach_deposit_info root =
      T.update (λ row. row.status == status_pending)
        λ row. record row {
          created_by_deposit_sub_tree =
              T.overwrite (to_string root) row.created_by_deposit_sub_tree;
        }

  unfoldable pub get_pending_acc_by_deposit_root : ByteArray → Exec T.Store (List UserState)
  get_pending_acc_by_deposit_root root = T.find_all λ row.
      list_eq row.created_by_deposit_sub_tree (to_string root) && row.status == status_pending
