-- ===== src/Account.antt =====
-- core/account.go: the rows of the account tree, which holds the public keys, and the operations on
-- their table.
pub mod Nodes
pub mod Start
pub mod Taken
pub mod Climb
use reddit_commander.Prelude.{
  ℕ, zero, suc, ◌+◌, ◌^◌, ◌≡◌, ◌++◌, All, any, true, false, db_fault, Bool, ◌&&◌, ◌||◌, List, [],
  ◌∷◌, map, length, Outcome, ok, err, panic, bind, depth_mismatch, record_not_found, ◌==◌, list_eq,
  if◌then◌else◌,
}
use reddit_commander.Constants.{type_terminal, type_non_terminal}
use reddit_commander.Bytes.{Str, Slice, ByteArray, to_string, hex_to_byte_array}
use reddit_commander.Bytes.Hex.{decode}
use reddit_commander.NodePath.{
  PadLibrary, get_parent_path, get_other_child, get_nth_bit_from_right, gen_coordinator_path,
  get_adjacent_node_path,
}
use reddit_commander.Merkle.{Crypto, get_parent, zero_value_leaf}
use reddit_commander.Gorm.{Exec, Table, pure, lift, ◌>>=◌, ◌>>◌}
use reddit_commander.State.{as_not_found}
use reddit_commander.State.Init.{or_insert_failed}

-- `type Account struct`. By its name the id is the primary key.
pub record Account : Type 0 where
  pub id : ℕ
  pub public_key : Str
  pub path : Str
  pub node_type : ℕ
  pub hash : Str
  pub level : ℕ

-- The zero value of the struct.
abbrev pub blank_account : Account
blank_account = record { id = 0; public_key = []; path = []; node_type = 0; hash = []; level = 0 }

abbrev pub without_id : Account → Account
without_id acc = record acc { id = 0 }

abbrev pub ids : List Account → List ℕ
ids accs = map (λ a. a.id) accs

-- The key that a row has after its insertion in an empty table: blank ones are numbered from 1.
abbrev pub first_key : ℕ → ℕ
first_key zero = 1
first_key (suc id) = suc id

-- The primary key of the table, beside the keys that are in it: rows with a blank one are numbered by
-- the database, and one that is taken fails the statement.
pub record AutoKeys : Type 0 where
  pub numbered : List ℕ → List Account → List Account
  pub numbered_lem :
      (held : List ℕ) (xs : List Account) → map without_id (numbered held xs) ≡ map without_id xs
  pub numbered_first : (a : Account) → numbered [] (a ∷ []) ≡ record a { id = first_key a.id } ∷ []
  pub admits : List ℕ → List ℕ → Bool
  pub admits_first : (id : ℕ) → admits [] (id ∷ []) ≡ true
  pub admits_blank : (held new : List ℕ) → All (λ id. id ≡ 0) new → admits held new ≡ true
  pub admits_taken :
      (held before after : List ℕ) (id : ℕ)
      → any (λ k. k == suc id) held ≡ true
      → admits held (before ++ suc id ∷ after) ≡ false

-- `UpdatePath`.
unfoldable pub update_path : Str → Account → Account
update_path path p = record p { path = path; level = length path }

-- `newAccountNode`.
unfoldable pub new_account_node : Str → Str → Account
unfolding update_path
new_account_node path hash =
    record (update_path path (record blank_account { node_type = type_non_terminal })) {
      hash = hash;
    }

-- `NewEmptyAccount`.
abbrev pub new_empty_account : Account
new_empty_account = record blank_account { node_type = type_terminal }

-- `HashToByteArray`: an unreadable hash panics.
unfoldable pub hash_to_byte_array : Account → Outcome ByteArray
hash_to_byte_array p = elim (hex_to_byte_array p.hash) [
  | ok ba ↦ ok ba
  | err e ↦ panic
  | panic ↦ panic
]

-- `encodePubkey`, with abi.Arguments.Pack for one value of type bytes: a text that is not
-- hexadecimal panics.
unfoldable pub encode_pubkey : (Slice → Outcome Slice) → Str → Outcome Slice
encode_pubkey pack_bytes pubkey = elim (decode pubkey) [
  | ok pubkey_bytes ↦ pack_bytes pubkey_bytes
  | err e ↦ panic
  | panic ↦ panic
]

module _ (K : Crypto) (pack_bytes : Slice → Outcome Slice) where
  unfoldable pub populate_hash : Account → Outcome Account
  unfolding encode_pubkey
  populate_hash p =
      if list_eq p.public_key []
      then ok (record p { hash = to_string zero_value_leaf })
      else bind (encode_pubkey pack_bytes p.public_key)
          λ bz. ok (record p { hash = K.hash_string (K.keccak256 bz) })

  unfoldable pub new_account : ℕ → Str → Str → Outcome Account
  unfolding populate_hash
  new_account id pubkey path = populate_hash (record blank_account {
    id = id;
    public_key = pubkey;
    path = path;
    node_type = type_terminal;
  })

  -- The callers that do not look at the error of `PopulateHash`.
  abbrev pub populated : Account → Outcome Account
  populated p = elim (populate_hash p) [ ok q ↦ ok q | err e ↦ ok p | panic ↦ panic ]

abbrev pub at_path : Str → Account → Bool
at_path p row = list_eq row.path p

-- The condition of `Model(&newAccount).Where("path = ?", path)`: a primary key that is not blank is
-- a condition too.
abbrev pub same_row : Account → Str → Account → Bool
same_row new_account path row =
    at_path path row && (new_account.id == 0 || row.id == new_account.id)

-- Two nodes at a time are joined; of an odd number the last one has no partner and panics.
unfoldable pub next_level : Crypto → List Account → Outcome (List Account)
next_level K [] = ok []
next_level K (a ∷ []) = bind (hex_to_byte_array a.hash) (λ left. panic)
next_level K (a ∷ b ∷ accs) = bind (hex_to_byte_array a.hash) λ left.
    bind (hex_to_byte_array b.hash) λ right. bind (get_parent K left right) λ parent_hash.
      bind (next_level K accs)
        λ nodes. ok (new_account_node (get_parent_path a.path) (to_string parent_hash) ∷ nodes)

-- The paths of the leaves after the first, each next to the one before.
unfoldable pub place_leaves : PadLibrary → Str → List Account → Outcome (List Account)
place_leaves pad prev_node_path [] = ok []
place_leaves pad prev_node_path (acc ∷ accs) =
    bind (get_adjacent_node_path pad prev_node_path) λ path_to_adjacent_node.
      bind (place_leaves pad path_to_adjacent_node accs)
        λ placed. ok (update_path path_to_adjacent_node acc ∷ placed)

module _ (K : Crypto) (pack_bytes : Slice → Outcome Slice) (T : Table Account) where
  unfoldable pub get_account_leaf_by_path : Str → Exec T.Store Account
  get_account_leaf_by_path path s = as_not_found (T.find_one (at_path path) s)

  -- `GetAccountLeafByID`: the table has no column `account_id`, so that the query is an error.
  unfoldable pub get_account_leaf_by_id : ℕ → Exec T.Store Account
  get_account_leaf_by_id id s = (err record_not_found, T.tick s)

  unfoldable pub get_account_root : Exec T.Store Account
  get_account_root s = as_not_found (T.find_one (λ row. row.level == 0) s)

  unfoldable pub get_account_by_depth : ℕ → Exec T.Store (List Account)
  get_account_by_depth depth = T.find_all (λ row. row.level == depth)

  -- The columns that `Update(newAccount)` writes.
  abbrev pub assign : Account → Account → Account
  assign new_account row = record {
    id = T.overwrite_number new_account.id row.id;
    public_key = T.overwrite new_account.public_key row.public_key;
    path = T.overwrite new_account.path row.path;
    node_type = T.overwrite_number new_account.node_type row.node_type;
    hash = T.overwrite new_account.hash row.hash;
    level = T.overwrite_number new_account.level row.level;
  }

  -- `updateSingleAccount`.
  unfoldable pub update_single_account : Account → Str → Exec T.Store (Unit {0})
  update_single_account new_account path = T.update (same_row new_account path) (assign new_account)

  unfoldable pub update_parent_account_with_hash : Str → ByteArray → Exec T.Store (Unit {0})
  unfolding update_single_account
  update_parent_account_with_hash path_to_parent new_hash =
      update_single_account
        (record blank_account { path = path_to_parent; hash = to_string new_hash }) path_to_parent

  unfoldable pub update_account_root_nodes : ByteArray → Exec T.Store (Unit {0})
  unfolding update_single_account
  update_account_root_nodes new_root =
      update_single_account (record blank_account { hash = to_string new_root }) []

  -- `storeAccountNode`: both children are written.
  unfoldable pub store_account_node : ByteArray → Account → Account → Exec T.Store (Unit {0})
  unfolding update_single_account update_parent_account_with_hash
  store_account_node parent_hash left_node right_node = do
    update_single_account left_node left_node.path
    update_single_account right_node right_node.path
    update_parent_account_with_hash (get_parent_path left_node.path) parent_hash

  -- One round of `storeAccountLeaf`, by the bit of the path.
  unfoldable pub store_account_pair : ℕ → Account → Account → Exec T.Store (Unit {0})
  unfolding store_account_node
  store_account_pair zero computed_node sibling = do
    left ← lift (hash_to_byte_array computed_node)
    right ← lift (hash_to_byte_array sibling)
    parent_hash ← lift (get_parent K left right)
    store_account_node parent_hash computed_node sibling
  store_account_pair (suc bit) computed_node sibling = do
    left ← lift (hash_to_byte_array sibling)
    right ← lift (hash_to_byte_array computed_node)
    parent_hash ← lift (get_parent K left right)
    store_account_node parent_hash sibling computed_node

  -- The loop of `storeAccountLeaf` from round `i`, and the write of the root after it.
  unfoldable pub store_account_leaf_loop :
      Str → ℕ → List Account → Account → Exec T.Store (Unit {0})
  unfolding store_account_pair
  store_account_leaf_loop path i [] computed_node = do
    root ← lift (hash_to_byte_array computed_node)
    update_account_root_nodes root
  store_account_leaf_loop path i (sibling ∷ siblings) computed_node = do
    bit ← lift (get_nth_bit_from_right path i)
    store_account_pair bit computed_node sibling
    parent_account ← get_account_leaf_by_path (get_parent_path computed_node.path)
    store_account_leaf_loop path (i + 1) siblings parent_account

  unfoldable pub store_account_leaf : Account → Str → List Account → Exec T.Store (Unit {0})
  unfolding store_account_leaf_loop
  store_account_leaf leaf path siblings = store_account_leaf_loop path 0 siblings leaf

  -- The loop of `GetAccountSiblings`, with the rounds left.
  unfoldable pub get_account_siblings_loop : ℕ → Str → Exec T.Store (List Account)
  get_account_siblings_loop zero relative_path = pure []
  get_account_siblings_loop (suc i) relative_path = do
    other_child ← lift (get_other_child relative_path)
    other_node ← get_account_leaf_by_path other_child
    siblings ← get_account_siblings_loop i (get_parent_path relative_path)
    pure (other_node ∷ siblings)

  unfoldable pub get_account_siblings : Str → Exec T.Store (List Account)
  unfolding get_account_siblings_loop
  get_account_siblings path = get_account_siblings_loop (length path) path

  -- `UpdateAccount`.
  unfoldable pub update_account : Account → Exec T.Store (Unit {0})
  unfolding get_account_siblings store_account_leaf
  update_account leaf = do
    hashed ← lift (populated K pack_bytes leaf)
    siblings ← get_account_siblings hashed.path
    store_account_leaf hashed hashed.path siblings

  -- `Create` and `BulkInsert` on a table with this primary key.
  abbrev pub insert_accounts : AutoKeys → List Account → Exec T.Store (Unit {0})
  insert_accounts keys xs s =
      if keys.admits (ids (T.rows s)) (ids xs)
      then T.insert (keys.numbered (ids (T.rows s)) xs) s
      else (err db_fault, T.tick s)

  -- The rounds of `InitAccountTree` from level `j` up.
  unfoldable pub merkelise : AutoKeys → ℕ → Exec T.Store (Unit {0})
  merkelise keys zero = pure tt
  merkelise keys (suc j) = do
    accs ← get_account_by_depth (suc j)
    next_level_accounts ← lift (next_level K accs)
    or_insert_failed (insert_accounts keys next_level_accounts)
    merkelise keys j

  -- `InsertCoordinatorPubkeyAccounts`; an error of `PopulateHash` is not looked at.
  unfoldable pub insert_coordinator_pubkey_accounts :
      AutoKeys → Account → ℕ → Exec T.Store (Unit {0})
  insert_coordinator_pubkey_accounts keys coordinator_account depth = do
    hashed ←
        lift (populated K pack_bytes (update_path (gen_coordinator_path depth) coordinator_account))
    insert_accounts keys (record hashed { node_type = type_terminal } ∷ [])

  unfoldable pub init_leaves : AutoKeys → PadLibrary → ℕ → List Account → Exec T.Store (Unit {0})
  unfolding insert_coordinator_pubkey_accounts
  init_leaves keys pad depth [] = λ s. (panic, s)
  init_leaves keys pad depth (coordinator ∷ others) = do
    insert_coordinator_pubkey_accounts keys coordinator depth
    insert_records ← lift (place_leaves pad (gen_coordinator_path depth) others)
    or_insert_failed (insert_accounts keys insert_records)

  unfoldable pub init_account_tree :
      AutoKeys → PadLibrary → ℕ → List Account → Exec T.Store (Unit {0})
  unfolding init_leaves merkelise
  init_account_tree keys pad depth genesis_account =
      if 2 ^ depth == length genesis_account
      then (do init_leaves keys pad depth genesis_account; merkelise keys depth)
      else (λ s. (err depth_mismatch, s))
