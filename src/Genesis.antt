-- ===== src/Genesis.antt =====
-- config/genesis.go and cmd/start.go: the genesis file's data, its validation, and how a node that
-- starts for the first time fills its database.
pub mod Filled
pub mod Keys
pub mod Ready
pub mod Loaded
pub mod Started
use reddit_commander.Prelude.{
  ℕ, zero, suc, ◌-◌, ◌^◌, Bool, true, false, not, ◌&&◌, List, [], ◌∷◌, ◌++◌, length, replicate,
  Outcome, ok, err, panic, record_not_found, bind, too_many_accounts, no_accounts, not_coordinator,
  ltb, ◌==◌, if◌then◌else◌, codes,
}
use reddit_commander.Constants.{status_active}
use reddit_commander.Bytes.{Str, Slice, to_string}
use reddit_commander.NodePath.{PadLibrary, solidity_path_to_node_path}
use reddit_commander.Merkle.{Crypto, zero_value_leaf}
use reddit_commander.Gorm.{Exec, Table, attempt, lift, pure, continue, ◌>>=◌, ◌>>◌}
use reddit_commander.State.{UserState, new_user_state, empty_user_state, create_account_hash}
use reddit_commander.State.Init.{init_state_tree}
use reddit_commander.Account.{Account, AutoKeys, new_account, new_empty_account, init_account_tree}
use reddit_commander.Params.{
  SyncStatus, get_sync_status, update_stake_amount, update_max_depth,
  update_deposit_sub_tree_height, update_finalisation_time_per_batch, init_sync_status,
}
use reddit_commander.Database.{Tables, Db, on_states, on_accounts, on_params, on_syncs}
use reddit_commander.Bazooka.{Frontend, encode_state}
use reddit_commander.Listener.{must}

-- `type GenUserState struct`.
pub record GenUserState : Type 0 where
  pub account_id : ℕ
  pub nonce : ℕ
  pub balance : ℕ
  pub token_type : ℕ
  pub public_key : Str

-- `type Genesis struct`; `GenesisAccounts` is its one field.
pub record Genesis : Type 0 where
  pub start_eth_block : ℕ
  pub max_tree_depth : ℕ
  pub max_deposit_sub_tree_height : ℕ
  pub stake_amount : ℕ
  pub genesis_accounts : List GenUserState

-- `IsCoordinator`.
unfoldable pub is_coordinator : GenUserState → Bool
is_coordinator acc =
    acc.account_id == 0 && acc.balance == 0 && acc.token_type == 0 && acc.nonce == 0

-- `NewGenUserState`.
unfoldable pub new_gen_user_state : ℕ → ℕ → ℕ → ℕ → Str → GenUserState
new_gen_user_state account_id balance token_type nonce public_key = record {
  account_id = account_id;
  balance = balance;
  token_type = token_type;
  nonce = nonce;
  public_key = public_key;
}

unfoldable pub default_genesis_accounts : List GenUserState
unfolding new_gen_user_state
default_genesis_accounts =
    new_gen_user_state 0 0 0 0 (codes "0") ∷ new_gen_user_state 1 0 0 0 (codes "0") ∷ []

-- `DefaultGenesis`, with the constant `DEFAULT_DEPTH` of 2.
unfoldable pub default_genesis : Genesis
default_genesis = record {
  start_eth_block = 0;
  max_tree_depth = 2;
  max_deposit_sub_tree_height = 2;
  stake_amount = 32;
  genesis_accounts = default_genesis_accounts;
}

-- `Validate`.
unfoldable pub validate : Genesis → Outcome (Unit {0})
validate g =
    if ltb (2 ^ g.max_tree_depth) (length g.genesis_accounts)
    then err too_many_accounts
    else first g.genesis_accounts
  where
    first : List GenUserState → Outcome (Unit {0})
    first [] = err no_accounts
    first (acc ∷ accounts) = if is_coordinator acc then ok tt else err not_coordinator

-- `PanicIfError`.
abbrev pub expect {ℓ} : {A : Type ℓ} → Outcome A → Outcome A
expect (ok a) = ok a
expect (err e) = panic
expect panic = panic

module _ (K : Crypto) (F : Frontend) (pack_bytes : Slice → Outcome Slice) where
  -- One account of the loop of `loadGenesisData`.
  unfoldable pub gen_account : ℕ → GenUserState → Outcome (UserState × Account)
  gen_account depth acc = bind (expect (solidity_path_to_node_path acc.account_id depth)) λ path.
      bind (expect (encode_state F acc.account_id acc.balance acc.nonce acc.token_type))
        λ state_bytes.
          bind (expect (new_account K pack_bytes acc.account_id acc.public_key path))
            λ new_acc. ok (new_user_state K acc.account_id status_active path state_bytes, new_acc)

  unfoldable pub gen_accounts : ℕ → List GenUserState → Outcome (List UserState × List Account)
  unfolding gen_account
  gen_accounts depth [] = ok ([], [])
  gen_accounts depth (acc ∷ accounts) =
      bind (gen_account depth acc)
        λ made. bind (gen_accounts depth accounts) λ rest. ok (made.0 ∷ rest.0, made.1 ∷ rest.1)

  -- The bytes of the first account.
  abbrev zero_data : List UserState → Slice
  zero_data [] = []
  zero_data (state ∷ states) = state.state_data

  -- The rows of both trees: the accounts of the file, then as many empty ones as the depth has room
  -- for.
  unfoldable pub genesis_rows : Genesis → Outcome (List UserState × List Account)
  unfolding gen_accounts
  genesis_rows genesis = bind (gen_accounts genesis.max_tree_depth genesis.genesis_accounts) λ made.
      let diff : ℕ = 2 ^ genesis.max_tree_depth - length genesis.genesis_accounts in
      let new_empty_state : UserState =
        create_account_hash K (record (empty_user_state K) { state_data = zero_data made.0 }) in
      let new_account : Account = record new_empty_account { hash = to_string zero_value_leaf } in
      ok (made.0 ++ replicate diff new_empty_state, made.1 ++ replicate diff new_account)

  -- `loadGenesisData`; the errors of the updates of the parameters are not looked at.
  unfoldable pub load_genesis_data :
      (G : Tables) → AutoKeys → PadLibrary → Str → Genesis → Exec (Db G) (Unit {0})
  unfolding genesis_rows
  load_genesis_data G keys pad default_id genesis = do
    must (lift (validate genesis))
    made ← lift (genesis_rows genesis)
    must (on_states G (init_state_tree K G.state_table pad genesis.max_tree_depth made.0))
    must (
        on_accounts G
          (init_account_tree K pack_bytes G.account_table keys pad genesis.max_tree_depth made.1))
    a ← attempt (on_params G (update_stake_amount G.params_table genesis.stake_amount))
    b ← attempt (on_params G (update_max_depth G.params_table genesis.max_tree_depth))
    c ← attempt (
        on_params G
          (update_deposit_sub_tree_height G.params_table genesis.max_deposit_sub_tree_height))
    d ← attempt (on_params G (update_finalisation_time_per_batch G.params_table 40320))
    must (on_syncs G (init_sync_status G.sync_table default_id genesis.start_eth_block))

  -- What `StartCmd` does on the result of `GetSyncStatus`: where there is no row the node starts for
  -- the first time.
  unfoldable pub on_sync_status :
      (G : Tables)
      → AutoKeys
      → PadLibrary
      → Str
      → Outcome Genesis
      → Outcome SyncStatus
      → Exec (Db G) (Unit {0})
  on_sync_status G keys pad default_id genesis_file (ok status) = pure tt
  on_sync_status G keys pad default_id genesis_file (err record_not_found) = do
    genesis ← must (lift genesis_file)
    load_genesis_data G keys pad default_id genesis
  on_sync_status G keys pad default_id genesis_file (err e) = lift panic
  on_sync_status G keys pad default_id genesis_file panic = lift panic

  -- The beginning of `StartCmd`, before the services.
  unfoldable pub start_node :
      (G : Tables) → AutoKeys → PadLibrary → Str → Outcome Genesis → Exec (Db G) (Unit {0})
  unfolding on_sync_status
  start_node G keys pad default_id genesis_file = do
    status ← attempt (on_syncs G (get_sync_status G.sync_table))
    on_sync_status G keys pad default_id genesis_file status
