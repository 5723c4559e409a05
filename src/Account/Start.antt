-- ===== src/Account/Start.antt =====
-- core/account.go: what `InitAccountTree` leaves in an empty table.
use native.Mathlib.Nat.{pow-suc}
use reddit_commander.Prelude.{
  ℕ, zero, suc, true, ◌^◌, ◌≤◌, ◌<◌, ◌≡◌, refl, sym, ap, ◌∙◌, subst, some, List, [], ◌∷◌, ◌++◌, All,
  select, length, get_elem?, arith, Outcome, ok, err, panic, ◌==◌, ==_iff, ok_injective, Bool-cases,
  inl, inr, list_eq, bind-eq-ok,
}
use reddit_commander.Bytes.{Str, Slice, to_string}
use reddit_commander.NodePath.{PadLibrary, gen_coordinator_path}
use reddit_commander.NodePath.Binary.{binary, length-binary}
use reddit_commander.Constants.{type_terminal}
use reddit_commander.Merkle.{Crypto, zero_value_leaf}
use reddit_commander.Merkle.Defaults.{zero_value_leaf-IsByteArray}
use reddit_commander.Gorm.{Table, IsQuiet}
use reddit_commander.State
use reddit_commander.State.Init
use reddit_commander.State.Rows.{Rows, Node, IsHash, to_string-IsHash}
use reddit_commander.State.Spine.{IsTree}
use reddit_commander.State.Update.{IsMerkle}
use reddit_commander.State.Init.{or_insert_failed}
use reddit_commander.State.Levels.{Level, next_level-Level}
use reddit_commander.State.Build.{Built, Node-append, Built-level}
use reddit_commander.State.Leaves.{gen_coordinator_path-binary, place_leaves-Level, Built-leaves}
use reddit_commander.State.Start.{or_insert_failed-ok}
use reddit_commander.Account.{
  Account, AutoKeys, ids, first_key, insert_accounts, encode_pubkey, update_path, populate_hash,
  populated, next_level, place_leaves, get_account_by_depth, merkelise,
  insert_coordinator_pubkey_accounts, init_leaves, init_account_tree,
}
use reddit_commander.Account.Nodes.{
  as_node, nodes, select-nodes, length-nodes, nodes-append, nodes-numbered, next_level-nodes,
  place_leaves-nodes, update_path-nodes, get_elem?-nodes, All-nodes, next_level-blank,
  place_leaves-ids,
}

-- The keys of the accounts after the first are free beside the one that the first has or gets.
abbrev pub Fits : AutoKeys → List Account → Type 0
Fits keys [] = Unit
Fits keys (acc ∷ accs) = keys.admits (first_key acc.id ∷ []) (ids accs) ≡ true

module _ (K : Crypto) (pack_bytes : Slice → Outcome Slice) where
  -- What `PopulateHash` leaves of an account.
  pub record Populated (p q : Account) : Type 0 where
    pub path : q.path ≡ p.path
    pub id : q.id ≡ p.id
    pub level : q.level ≡ p.level
    pub public_key : q.public_key ≡ p.public_key
    pub hash : IsHash q.hash
    -- the result hangs on the public key alone
    pub again :
        (r : Account)
        → r.public_key ≡ p.public_key
        → (t : Account) × (populate_hash K pack_bytes r ≡ ok t)

  pub populate_hash-Populated :
      (p q : Account) → populate_hash K pack_bytes p ≡ ok q → Populated p q
  unfolding populate_hash
  populate_hash-Populated p q e = elim (Bool-cases (list_eq p.public_key [])) [
    | inl h ↦
        subst (λ q. Populated p q) (ok_injective (rw h at e))
          (record {
            path = refl;
            id = refl;
            level = refl;
            public_key = refl;
            hash = to_string-IsHash zero_value_leaf zero_value_leaf-IsByteArray;
            again = λ r same. (record r { hash = to_string zero_value_leaf }, rw (same, h) refl);
          })
    | inr h ↦
        let (bz, packed, made) = bind-eq-ok (encode_pubkey pack_bytes p.public_key) _ (rw h at e) in
        subst (λ q. Populated p q) (ok_injective made)
          (record {
            path = refl;
            id = refl;
            level = refl;
            public_key = refl;
            hash =
                rw (K.hash_string_lem (K.keccak256 bz))
                  (to_string-IsHash (K.keccak256 bz) (K.keccak256-IsByteArray bz));
            again = λ r same.
                (record r { hash = K.hash_string (K.keccak256 bz) }, rw (same, h, packed) refl);
          })
  ]

module _ (K : Crypto) (pack_bytes : Slice → Outcome Slice) (T : Table Account) (quiet : IsQuiet T)
    (keys : AutoKeys) where
  -- The store after an insertion.
  abbrev pub stored : List Account → T.Store → T.Store
  stored ys s = T.inserted (keys.numbered (ids (T.rows s)) ys) s

  inserted-nodes :
      (ys : List Account) (s : T.Store)
      → nodes (T.rows (stored ys s)) ≡ nodes (T.rows s) ++ nodes ys
  inserted-nodes ys s =
      ap nodes (T.rows-inserted (keys.numbered (ids (T.rows s)) ys) s)
      ∙ nodes-append (T.rows s) (keys.numbered (ids (T.rows s)) ys)
      ∙ ap (λ zs. nodes (T.rows s) ++ zs) (nodes-numbered keys (ids (T.rows s)) ys)

  insert_accounts-quiet :
      (ys : List Account) (s : T.Store)
      → keys.admits (ids (T.rows s)) (ids ys) ≡ true
      → insert_accounts K pack_bytes T keys ys s ≡ (ok tt, stored ys s)
  insert_accounts-quiet ys s fits =
      rw (fits, T.insert_lem (keys.numbered (ids (T.rows s)) ys) s, quiet s) refl

  -- The first row of an empty table.
  pub first_row :
      (a : Account) (s : T.Store)
      → T.rows s ≡ []
      → T.rows (stored (a ∷ []) s) ≡ record a { id = first_key a.id } ∷ []
  first_row a s empty =
      T.rows-inserted (keys.numbered (ids (T.rows s)) (a ∷ [])) s
      ∙ ap (λ rows. rows ++ keys.numbered (ids rows) (a ∷ [])) empty
      ∙ keys.numbered_first a

  pub insert_first :
      (a : Account) (s : T.Store)
      → T.rows s ≡ []
      → insert_accounts K pack_bytes T keys (a ∷ []) s ≡ (ok tt, stored (a ∷ []) s)
  insert_first a s empty =
      insert_accounts-quiet (a ∷ []) s
        (ap (λ rows. keys.admits (ids rows) (a.id ∷ [])) empty ∙ keys.admits_first a.id)

  merkelise_step :
      (j : ℕ) (ys : List Account) (s s2 : T.Store)
      → next_level K (select (λ row. row.level == suc j) (T.rows s)) ≡ ok ys
      → insert_accounts K pack_bytes T keys ys (T.tick s) ≡ (ok tt, s2)
      → merkelise K pack_bytes T keys (suc j) s ≡ merkelise K pack_bytes T keys j s2
  unfolding merkelise get_account_by_depth
  merkelise_step j ys s s2 made wrote =
      rw
        (
          T.find_all_lem (λ row. row.level == suc j) s,
          quiet s,
          made,
          or_insert_failed-ok (insert_accounts K pack_bytes T keys ys) (T.tick s) s2 wrote,
        )
        refl

  merkelise-Built :
      (d j : ℕ) (xs : Rows) (s : T.Store)
      → Built K d j (nodes (T.rows s)) xs
      → (s' : T.Store) × (top : Rows) × (merkelise K pack_bytes T keys j s ≡ (ok tt, s'))
        × Built K d 0 (nodes (T.rows s')) top
        × ((q : Str) (r : State.UserState)
            → j ≤ length q
            → Node (nodes (T.rows s)) q r
            → Node (nodes (T.rows s')) q r)
  unfolding merkelise
  merkelise-Built d zero xs s b = (s, xs, refl, b, λ q r longer at. at)
  merkelise-Built d (suc j) xs s b =
      let accs : List Account = select (λ row. row.level == suc j) (T.rows s) in
      let same : nodes accs ≡ xs =
        sym (select-nodes (λ row. row.level == suc j) (T.rows s)) ∙ b.found in
      let (ys, made, level, full, joins) =
        next_level-Level K j 0 (2 ^ j) xs b.level (omega (arith, b.full, pow-suc 2 j)) in
      let (zs, runs, same_level) =
        next_level-nodes K j 0 (2 ^ j) accs (subst (Level (suc j) 0) (sym same) b.level)
          (omega (arith, b.full, pow-suc 2 j, ap length same, length-nodes accs)) in
      let same_ys : nodes zs ≡ ys =
        ok_injective (sym same_level ∙ ap (State.Init.next_level K) same ∙ made) in
      let s2 : T.Store = stored zs (T.tick s) in
      let rows2 : nodes (T.rows s2) ≡ nodes (T.rows s) ++ ys =
        inserted-nodes zs (T.tick s)
        ∙ ap (λ rows. nodes rows ++ nodes zs) (T.rows-tick s)
        ∙ ap (λ ws. nodes (T.rows s) ++ ws) same_ys in
      let b2 : Built K d j (nodes (T.rows s2)) ys =
        subst (λ rows. Built K d j rows ys) (sym rows2)
          (Built-level K d j (nodes (T.rows s)) xs ys b level full joins) in
      let (s', top, rest, done, stay) = merkelise-Built d j ys s2 b2 in
      (
        s',
        top,
        merkelise_step j zs s s2 runs (
              insert_accounts-quiet zs (T.tick s) (
                keys.admits_blank (ids (T.rows (T.tick s))) (ids zs)
                  (next_level-blank K accs zs runs)))
            ∙ rest,
        done,
        λ q r longer at. stay q r (omega (arith, longer)) (
            subst (λ rows. Node rows q r) (sym rows2)
              (Node-append j 0 (nodes (T.rows s)) ys q r level (λ e. omega (arith, e, longer)) at)),
      )

  abbrev pub terminal : Account → Account
  terminal a = record a { node_type = type_terminal }

  pub populated_lem :
      (p q : Account) → populate_hash K pack_bytes p ≡ ok q → populated K pack_bytes p ≡ ok q
  populated_lem p q e =
      ap (λ (r : Outcome Account). elim r [ ok q ↦ ok q | err e ↦ ok p | panic ↦ panic ]) e

  init_leaves_step :
      (pad : PadLibrary) (d : ℕ) (acc hashed : Account) (accs placed : List Account)
      (s s1 s2 : T.Store)
      → populate_hash K pack_bytes (update_path (gen_coordinator_path d) acc) ≡ ok hashed
      → insert_accounts K pack_bytes T keys (terminal hashed ∷ []) s ≡ (ok tt, s1)
      → place_leaves pad (gen_coordinator_path d) accs ≡ ok placed
      → insert_accounts K pack_bytes T keys placed s1 ≡ (ok tt, s2)
      → init_leaves K pack_bytes T keys pad d (acc ∷ accs) s ≡ (ok tt, s2)
  unfolding init_leaves insert_coordinator_pubkey_accounts
  init_leaves_step pad d acc hashed accs placed s s1 s2 hash first made rest =
      let e : populated K pack_bytes (update_path (gen_coordinator_path d) acc) ≡ ok hashed =
        populated_lem (update_path (gen_coordinator_path d) acc) hashed hash in
      rw
        (
          e,
          first,
          made,
          or_insert_failed-ok (insert_accounts K pack_bytes T keys placed) s1 s2 rest,
        )
        refl

  init_account_tree_step :
      (pad : PadLibrary) (d : ℕ) (accs : List Account) (s s1 : T.Store)
      → length accs ≡ 2 ^ d
      → init_leaves K pack_bytes T keys pad d accs s ≡ (ok tt, s1)
      → init_account_tree K pack_bytes T keys pad d accs s ≡ merkelise K pack_bytes T keys d s1
  unfolding init_account_tree
  init_account_tree_step pad d accs s s1 count leaves =
      rw ((==_iff (2 ^ d) (length accs)).1 (sym count), leaves) refl

  pub init_account_tree-IsTree :
      (pad : PadLibrary) (d : ℕ) (acc hashed : Account) (accs : List Account) (s : T.Store)
      → 0 < d
      → d ≤ 64
      → length (acc ∷ accs) ≡ 2 ^ d
      → All (λ a. IsHash a.hash) accs
      → populate_hash K pack_bytes (update_path (gen_coordinator_path d) acc) ≡ ok hashed
      → T.rows s ≡ []
      → Fits keys (acc ∷ accs)
      → (s' : T.Store) × (init_account_tree K pack_bytes T keys pad d (acc ∷ accs) s ≡ (ok tt, s'))
        × IsTree d (nodes (T.rows s'))
        × IsMerkle K d (nodes (T.rows s'))
        × Node (nodes (T.rows s')) (binary d 0) (as_node (terminal hashed))
        × ((k : ℕ) (a : Account)
            → get_elem? accs k ≡ some a
            → Node
                (nodes (T.rows s'))
                (binary d (suc k))
                (as_node (update_path (binary d (suc k)) a)))
  unfolding update_path
  init_account_tree-IsTree pad d acc hashed accs s pos le count hashes hash empty fits =
      let leaf : Account = terminal hashed in
      let h : Populated K pack_bytes (update_path (gen_coordinator_path d) acc) hashed =
        populate_hash-Populated K pack_bytes (update_path (gen_coordinator_path d) acc) hashed
          hash in
      let (ys, found, level, others, each) =
        place_leaves-Level pad d 0 (nodes accs) pos le (omega (arith, count, length-nodes accs))
          (All-nodes accs hashes) in
      let (placed, made, same) = place_leaves-nodes pad accs (binary d 0) ys found in
      let first_path : leaf.path ≡ binary d 0 = h.path ∙ gen_coordinator_path-binary d in
      let s1 : T.Store = stored (leaf ∷ []) s in
      let rows1 : T.rows s1 ≡ record leaf { id = first_key leaf.id } ∷ [] =
        first_row leaf s empty in
      let s2 : T.Store = stored placed s1 in
      let rows2 : nodes (T.rows s2) ≡ as_node leaf ∷ ys =
        inserted-nodes placed s1
        ∙ ap (λ rows. rows ++ nodes placed)
            (inserted-nodes (leaf ∷ []) s ∙ ap (λ rows. nodes rows ++ as_node leaf ∷ []) empty)
        ∙ ap (λ zs. as_node leaf ∷ zs) same in
      let leaves : Level d 0 (as_node leaf ∷ ys) = (
        first_path,
        h.level ∙ ap length (gen_coordinator_path-binary d) ∙ length-binary d 0,
        h.hash,
        level,
      ) in
      let b : Built K d d (nodes (T.rows s2)) (as_node leaf ∷ ys) =
        subst (λ rows. Built K d d rows (as_node leaf ∷ ys)) (sym rows2)
          (Built-leaves K d (as_node leaf ∷ ys) leaves
            (ap suc (others ∙ length-nodes accs) ∙ count)) in
      let (s', top, runs, done, stay) = merkelise-Built d d (as_node leaf ∷ ys) s2 b in
      (
        s',
        init_account_tree_step pad d (acc ∷ accs) s s2 count (
              init_leaves_step pad d acc hashed accs placed s s1 s2 hash (insert_first leaf s empty)
                (ap (λ p. place_leaves pad p accs) (gen_coordinator_path-binary d) ∙ made)
                (insert_accounts-quiet placed s1 (
                  ap (λ rows. keys.admits (ids rows) (ids placed)) rows1
                  ∙ ap (keys.admits (first_key leaf.id ∷ []))
                      (place_leaves-ids pad (binary d 0) accs placed made)
                  ∙ ap (λ k. keys.admits (first_key k ∷ []) (ids accs)) h.id
                  ∙ fits)))
            ∙ runs,
        (λ q bits short. done.tree q bits (omega arith) short),
        (λ q bits short. done.merkle q bits (omega arith) short),
        stay (binary d 0) (as_node leaf) (omega (arith, length-binary d 0))
            (b.nodes 0 (as_node leaf) refl),
        λ k a e.
            stay (binary d (suc k)) (as_node (update_path (binary d (suc k)) a))
              (omega (arith, length-binary d (suc k)))
              (b.nodes (suc k) (as_node (update_path (binary d (suc k)) a)) (
                subst (λ j. get_elem? ys k ≡ some (State.update_path (binary d j) (as_node a)))
                  (omega arith) (each k (as_node a) (get_elem?-nodes accs k a e))
                ∙ ap some (sym (update_path-nodes (binary d (suc k)) a)))),
      )
