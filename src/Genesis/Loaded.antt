-- ===== src/Genesis/Loaded.antt =====
-- cmd/start.go: the database that a node has after its first start.
use reddit_commander.Prelude.{
  ℕ, zero, suc, ◌^◌, ◌≤◌, ◌<◌, ◌≡◌, refl, sym, ap, ◌∙◌, subst, some, List, [], ◌∷◌, ◌++◌, All,
  length, get_elem?, arith, Outcome, ok, All-imp,
}
use reddit_commander.Bytes.{Str, Slice}
use reddit_commander.NodePath.{PadLibrary, gen_coordinator_path}
use reddit_commander.NodePath.Binary.{binary}
use reddit_commander.Merkle.{Crypto}
use reddit_commander.Gorm.{IsQuiet}
use reddit_commander.State.{UserState, update_path, create_account_hash}
use reddit_commander.State.Rows.{Rows, Node, IsHash}
use reddit_commander.State.Spine.{IsTree}
use reddit_commander.State.Update.{IsMerkle}
use reddit_commander.State.Init.{init_state_tree}
use reddit_commander.State.Start.{first_leaf, init_state_tree-IsTree}
use reddit_commander.Account
use reddit_commander.Account.{Account, AutoKeys, init_account_tree}
use reddit_commander.Account.Nodes.{nodes}
use reddit_commander.Account.Start.{Fits, init_account_tree-IsTree}
use reddit_commander.Params.{
  SyncStatus, update_stake_amount, update_max_depth, update_deposit_sub_tree_height,
  update_finalisation_time_per_batch, init_sync_status,
}
use reddit_commander.Params.Writes.{first_writes}
use reddit_commander.Database.{Tables, Db}
use reddit_commander.Bazooka.{Frontend}
use reddit_commander.Genesis.{Genesis, validate, genesis_rows, load_genesis_data}
use reddit_commander.Genesis.Filled.{IsValid, validate-IsValid, length-genesis_rows}
use reddit_commander.Genesis.Ready.{Ready, genesis_rows-Ready}

nonempty : {A : Type 0} (xs : List A) → 0 < length xs → (y : A) × (ys : List A) × (xs ≡ y ∷ ys)
nonempty [] h = absurd (omega arith)
nonempty (x ∷ xs) h = (x, xs, refl)

module _ (K : Crypto) (F : Frontend) (pack_bytes : Slice → Outcome Slice) (G : Tables)
    (keys : AutoKeys) (pad : PadLibrary) where
  -- Every table is empty, and no statement on one of them fails.
  pub record Fresh (db : Db G) : Type 0 where
    pub states : IsQuiet G.state_table × (G.state_table.rows db.states ≡ [])
    pub accounts : IsQuiet G.account_table × (G.account_table.rows db.accounts ≡ [])
    pub params : IsQuiet G.params_table × (G.params_table.rows db.params ≡ [])
    pub syncs : IsQuiet G.sync_table × (G.sync_table.rows db.syncs ≡ [])

  -- A database that was filled from a genesis file and the rows that were made of it.
  pub record Loaded (g : Genesis) (id : Str) (states : Rows) (db : Db G) : Type 0 where
    pub state_tree : IsTree g.max_tree_depth (G.state_table.rows db.states)
    pub state_merkle : IsMerkle K g.max_tree_depth (G.state_table.rows db.states)
    pub account_tree : IsTree g.max_tree_depth (nodes (G.account_table.rows db.accounts))
    pub account_merkle : IsMerkle K g.max_tree_depth (nodes (G.account_table.rows db.accounts))
    -- the k-th account is in the leaf of index k
    pub leaves :
        (k : ℕ) (a : UserState)
        → get_elem? states k ≡ some a
        → (r : UserState) × Node (G.state_table.rows db.states) (binary g.max_tree_depth k) r
          × (r.state_data ≡ a.state_data)
          × (r.account_id ≡ a.account_id)
    pub params :
        G.params_table.rows db.params
        ≡ record {
          stake_amount = g.stake_amount;
          max_depth = g.max_tree_depth;
          max_deposit_sub_tree_height = g.max_deposit_sub_tree_height;
          finalisation_time = 40320;
        }
          ∷ []
    pub progress :
        G.sync_table.rows db.syncs
        ≡ record { id = id; last_eth_block_recorded = g.start_eth_block; last_batch_recorded = 0 }
          ∷ []

  load_step :
      (id : Str) (g : Genesis) (made : Rows × List Account) (db : Db G) (s : G.state_table.Store)
      (a : G.account_table.Store) (p1 p2 p3 p4 : G.params_table.Store) (c : G.sync_table.Store)
      → validate g ≡ ok tt
      → genesis_rows K F pack_bytes g ≡ ok made
      → init_state_tree K G.state_table pad g.max_tree_depth made.0 db.states ≡ (ok tt, s)
      → init_account_tree K pack_bytes G.account_table keys pad g.max_tree_depth made.1 db.accounts
        ≡ (ok tt, a)
      → update_stake_amount G.params_table g.stake_amount db.params ≡ (ok tt, p1)
      → update_max_depth G.params_table g.max_tree_depth p1 ≡ (ok tt, p2)
      → update_deposit_sub_tree_height G.params_table g.max_deposit_sub_tree_height p2 ≡ (ok tt, p3)
      → update_finalisation_time_per_batch G.params_table 40320 p3 ≡ (ok tt, p4)
      → init_sync_status G.sync_table id g.start_eth_block db.syncs ≡ (ok tt, c)
      → load_genesis_data K F pack_bytes G keys pad id g db
        ≡ (ok tt, record db { states = s; accounts = a; params = p4; syncs = c })
  unfolding load_genesis_data
  load_step id g made db s a p1 p2 p3 p4 c valid rows e1 e2 e3 e4 e5 e6 e7 =
      rw (valid, rows, e1, e2, e3, e4, e5, e6, e7) refl

  head_there :
      {A : Type 0} (g : Genesis) (xs : List A)
      → validate g ≡ ok tt
      → length xs ≡ 2 ^ g.max_tree_depth
      → 0 < length xs
  head_there g xs valid count =
      let h : IsValid g = validate-IsValid g valid in
      omega (arith, h.fits, count, ap length h.accounts)

  leaf_of :
      (d : ℕ) (rows : Rows) (acc : UserState) (accs : Rows)
      → Node rows (binary d 0) (first_leaf K d acc)
      → ((k : ℕ) (a : UserState)
          → get_elem? accs k ≡ some a
          → Node rows (binary d (suc k)) (update_path (binary d (suc k)) a))
      → (k : ℕ) (a : UserState) → get_elem? (acc ∷ accs) k ≡ some a
      → (r : UserState) × Node rows (binary d k) r
        × (r.state_data ≡ a.state_data)
        × (r.account_id ≡ a.account_id)
  unfolding update_path create_account_hash
  leaf_of d rows acc accs first rest zero a e =
      let same : acc ≡ a = cc in
      (first_leaf K d acc, first, ap (λ x. x.state_data) same, ap (λ x. x.account_id) same)
  leaf_of d rows acc accs first rest (suc k) a e =
      (update_path (binary d (suc k)) a, rest k a e, refl, refl)

  -- From a genesis file that `Validate` accepts, of a depth of 1 to 64, of which rows can be made, and
  -- whose accounts have ids that are free beside the key of the coordinator's row: on empty tables none
  -- of whose statements fails `loadGenesisData` returns. Afterwards both trees are
  -- full, their inner nodes join their children, each account of the file and each empty one has its
  -- data and id in the leaf of its place, the parameters are those of the file with a finalisation
  -- time of 40320, and the progress starts at the file's block.
  pub load_genesis_data-Loaded :
      (id : Str) (g : Genesis) (made : Rows × List Account) (db : Db G)
      → Fresh db
      → validate g ≡ ok tt
      → genesis_rows K F pack_bytes g ≡ ok made
      → 0 < g.max_tree_depth
      → g.max_tree_depth ≤ 64
      → Fits keys made.1
      → (db' : Db G) × (load_genesis_data K F pack_bytes G keys pad id g db ≡ (ok tt, db'))
        × Loaded g id made.0 db'
  unfolding init_sync_status Account.update_path
  load_genesis_data-Loaded id g made db fresh valid rows pos le fits =
      let d : ℕ = g.max_tree_depth in
      let (count, count_accs) = length-genesis_rows K F pack_bytes g made valid rows in
      let ready = genesis_rows-Ready K F pack_bytes g made rows in
      let (acc, accs, e) = nonempty made.0 (head_there g made.0 valid count) in
      let (key_acc, key_accs, e') = nonempty made.1 (head_there g made.1 valid count_accs) in
      let hashes : All (λ r. IsHash r.hash) (acc ∷ accs) =
        subst (All (λ r. IsHash r.hash)) e ready.0 in
      let keys_ready : All (Ready K F pack_bytes) (key_acc ∷ key_accs) =
        subst (All (Ready K F pack_bytes)) e' ready.1 in
      let (hashed, hash) =
        keys_ready.0.again (Account.update_path (gen_coordinator_path d) key_acc) refl in
      let (s, runs, tree, merkle, first, rest) =
        init_state_tree-IsTree K G.state_table fresh.states.0 pad d acc accs db.states pos le
          (ap length (sym e) ∙ count) hashes.1 fresh.states.1 in
      let (a, runs_a, tree_a, merkle_a, first_a, rest_a) =
        init_account_tree-IsTree K pack_bytes G.account_table fresh.accounts.0 keys pad d key_acc
          hashed key_accs db.accounts pos le (ap length (sym e') ∙ count_accs)
          (All-imp key_accs (λ x r. r.hash) keys_ready.1) hash fresh.accounts.1
          (subst (Fits keys) e' fits) in
      let (p1, p2, p3, p4, e1, e2, e3, e4, params) =
        first_writes G.params_table fresh.params.0 g.stake_amount d g.max_deposit_sub_tree_height
          40320 db.params fresh.params.1 in
      let row : SyncStatus = record {
        id = id;
        last_eth_block_recorded = g.start_eth_block;
        last_batch_recorded = 0;
      } in
      let c : G.sync_table.Store = G.sync_table.inserted (row ∷ []) db.syncs in
      (
        record db { states = s; accounts = a; params = p4; syncs = c },
        load_step id g made db s a p1 p2 p3 p4 c valid rows
            (ap (λ xs. init_state_tree K G.state_table pad d xs db.states) e ∙ runs)
            (ap (λ xs. init_account_tree K pack_bytes G.account_table keys pad d xs db.accounts) e'
              ∙ runs_a)
            e1 e2 e3 e4
            (rw (G.sync_table.insert_lem (row ∷ []) db.syncs, fresh.syncs.0 db.syncs) refl),
        record {
          state_tree = tree;
          state_merkle = merkle;
          account_tree = tree_a;
          account_merkle = merkle_a;
          leaves = λ k x at.
              leaf_of d (G.state_table.rows s) acc accs first rest k x
                (subst (λ xs. get_elem? xs k ≡ some x) e at);
          params = params;
          progress =
              G.sync_table.rows-inserted (row ∷ []) db.syncs
              ∙ ap (λ xs. xs ++ row ∷ []) fresh.syncs.1;
        },
      )
