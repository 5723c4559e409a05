-- ===== src/State/Start.antt =====
-- core/state.go: what `InitStateTree` leaves in an empty table.
use native.Mathlib.Nat.{pow-suc}
use reddit_commander.Prelude.{
  ℕ, zero, suc, ◌^◌, ◌≤◌, ◌<◌, ◌≡◌, refl, sym, ap, ◌∙◌, subst, some, [], ◌∷◌, ◌++◌, All, length,
  get_elem?, arith, Outcome, ok, err, panic, insert_failed, ◌==◌, ==_iff,
}
use reddit_commander.Bytes.{Str}
use reddit_commander.NodePath.{PadLibrary, gen_coordinator_path}
use reddit_commander.NodePath.Binary.{binary, length-binary}
use reddit_commander.Merkle.{Crypto}
use reddit_commander.Gorm.{Exec, Table, IsQuiet}
use reddit_commander.State.{
  UserState, update_path, create_account_hash, get_states_at_depth, insert_coordinator_accounts,
}
use reddit_commander.State.Rows.{Rows, Node, IsHash, to_string-IsHash}
use reddit_commander.State.Spine.{IsTree}
use reddit_commander.State.Update.{IsMerkle}
use reddit_commander.State.Init.{
  or_insert_failed, next_level, place_leaves, merkelise, init_leaves, init_state_tree,
}
use reddit_commander.State.Levels.{Level, next_level-Level}
use reddit_commander.State.Build.{Built, Node-append, Built-level}
use reddit_commander.State.Leaves.{gen_coordinator_path-binary, place_leaves-Level, Built-leaves}

pub or_insert_failed-ok :
    {S : Type 0} (m : Exec S (Unit {0})) (s s' : S)
    → m s ≡ (ok tt, s')
    → or_insert_failed m s ≡ (ok tt, s')
or_insert_failed-ok {S} m s s' e =
    ap
      (λ (p : Outcome (Unit {0}) × S). elim p.0 [
        | ok a ↦ (ok a, p.1)
        | err x ↦ (err insert_failed, p.1)
        | panic ↦ (panic, p.1)
      ])
      e

-- The leaf that `InsertCoordinatorAccounts` inserts.
abbrev pub first_leaf : Crypto → ℕ → UserState → UserState
first_leaf K d acc = record (create_account_hash K (update_path (gen_coordinator_path d) acc)) {
  node_type = 1;
}

module _ (K : Crypto) (T : Table UserState) (quiet : IsQuiet T) where
  merkelise_step :
      (i : ℕ) (xs ys : Rows) (s s1 s2 : T.Store)
      → T.find_all (λ row. row.level == suc i) s ≡ (ok xs, s1)
      → next_level K xs ≡ ok ys
      → T.insert ys s1 ≡ (ok tt, s2)
      → merkelise K T (suc i) s ≡ merkelise K T i s2
  unfolding merkelise get_states_at_depth
  merkelise_step i xs ys s s1 s2 read made wrote =
      rw (read, made, or_insert_failed-ok (T.insert ys) s1 s2 wrote) refl

  insert-quiet : (ys : Rows) (s : T.Store) → T.insert ys s ≡ (ok tt, T.inserted ys s)
  insert-quiet ys s = rw (T.insert_lem ys s, quiet s) refl

  merkelise-Built :
      (d i : ℕ) (xs : Rows) (s : T.Store)
      → Built K d i (T.rows s) xs
      → (s' : T.Store) × (top : Rows) × (merkelise K T i s ≡ (ok tt, s'))
        × Built K d 0 (T.rows s') top
        × ((q : Str) (r : UserState) → i ≤ length q → Node (T.rows s) q r → Node (T.rows s') q r)
  unfolding merkelise
  merkelise-Built d zero xs s b = (s, xs, refl, b, λ q r longer at. at)
  merkelise-Built d (suc i) xs s b =
      let (ys, made, level, full, joins) =
        next_level-Level K i 0 (2 ^ i) xs b.level (omega (arith, b.full, pow-suc 2 i)) in
      let s1 : T.Store = T.tick s in
      let s2 : T.Store = T.inserted ys s1 in
      let rows2 : T.rows s2 ≡ T.rows s ++ ys =
        T.rows-inserted ys s1 ∙ ap (λ rows. rows ++ ys) (T.rows-tick s) in
      let b2 : Built K d i (T.rows s2) ys =
        subst (λ rows. Built K d i rows ys) (sym rows2)
          (Built-level K d i (T.rows s) xs ys b level full joins) in
      let (s', top, runs, done, stay) = merkelise-Built d i ys s2 b2 in
      (
        s',
        top,
        merkelise_step i xs ys s s1 s2
              (rw (T.find_all_lem (λ row. row.level == suc i) s, quiet s, b.found) refl) made
              (insert-quiet ys s1)
            ∙ runs,
        done,
        λ q r longer at. stay q r (omega (arith, longer)) (
            subst (λ rows. Node rows q r) (sym rows2)
              (Node-append i 0 (T.rows s) ys q r level (λ e. omega (arith, e, longer)) at)),
      )

  first_leaf-level : (d : ℕ) (acc : UserState) → (first_leaf K d acc).level ≡ d
  unfolding create_account_hash update_path
  first_leaf-level d acc = ap length (gen_coordinator_path-binary d) ∙ length-binary d 0

  first_leaf-path : (d : ℕ) (acc : UserState) → (first_leaf K d acc).path ≡ binary d 0
  unfolding create_account_hash update_path
  first_leaf-path d acc = gen_coordinator_path-binary d

  first_leaf-IsHash : (d : ℕ) (acc : UserState) → IsHash (first_leaf K d acc).hash
  unfolding create_account_hash update_path
  first_leaf-IsHash d acc =
      rw (K.hash_string_lem (K.keccak256 acc.state_data))
        (to_string-IsHash (K.keccak256 acc.state_data) (K.keccak256-IsByteArray acc.state_data))

  init_leaves_step :
      (pad : PadLibrary) (d : ℕ) (acc : UserState) (accs placed : Rows) (s s1 s2 : T.Store)
      → T.insert (first_leaf K d acc ∷ []) s ≡ (ok tt, s1)
      → place_leaves pad (gen_coordinator_path d) accs ≡ ok placed
      → T.insert placed s1 ≡ (ok tt, s2)
      → init_leaves K T pad d (acc ∷ accs) s ≡ (ok tt, s2)
  unfolding init_leaves insert_coordinator_accounts
  init_leaves_step pad d acc accs placed s s1 s2 first made rest =
      rw (first, made, or_insert_failed-ok (T.insert placed) s1 s2 rest) refl

  init_state_tree_step :
      (pad : PadLibrary) (d : ℕ) (accs : Rows) (s s1 : T.Store)
      → length accs ≡ 2 ^ d
      → init_leaves K T pad d accs s ≡ (ok tt, s1)
      → init_state_tree K T pad d accs s ≡ merkelise K T d s1
  unfolding init_state_tree
  init_state_tree_step pad d accs s s1 count leaves =
      rw ((==_iff (2 ^ d) (length accs)).1 (sym count), leaves) refl

  -- In an empty table, for a depth of 1 to 64 and as many accounts as leaves, those after the first
  -- with a hash column that holds a hash, and where no statement fails: `InitStateTree` returns
  -- without an error and leaves a full tree whose every inner node joins its children. The leftmost
  -- leaf is the first account with the hash of its data; the others follow in their order, each
  -- unchanged but for its path and level.
  pub init_state_tree-IsTree :
      (pad : PadLibrary) (d : ℕ) (acc : UserState) (accs : Rows) (s : T.Store)
      → 0 < d
      → d ≤ 64
      → length (acc ∷ accs) ≡ 2 ^ d
      → All (λ a. IsHash a.hash) accs
      → T.rows s ≡ []
      → (s' : T.Store) × (init_state_tree K T pad d (acc ∷ accs) s ≡ (ok tt, s'))
        × IsTree d (T.rows s')
        × IsMerkle K d (T.rows s')
        × Node (T.rows s') (binary d 0) (first_leaf K d acc)
        × ((k : ℕ) (a : UserState)
            → get_elem? accs k ≡ some a
            → Node (T.rows s') (binary d (suc k)) (update_path (binary d (suc k)) a))
  init_state_tree-IsTree pad d acc accs s pos le count hashes empty =
      let leaf : UserState = first_leaf K d acc in
      let (placed, made, level, others, each) =
        place_leaves-Level pad d 0 accs pos le (omega (arith, count)) hashes in
      let s1 : T.Store = T.inserted (leaf ∷ []) s in
      let s2 : T.Store = T.inserted placed s1 in
      let rows2 : T.rows s2 ≡ leaf ∷ placed =
        T.rows-inserted placed s1
        ∙ ap (λ rows. rows ++ placed)
            (T.rows-inserted (leaf ∷ []) s ∙ ap (λ rows. rows ++ leaf ∷ []) empty) in
      let leaves : Level d 0 (leaf ∷ placed) =
        (first_leaf-path d acc, first_leaf-level d acc, first_leaf-IsHash d acc, level) in
      let b : Built K d d (T.rows s2) (leaf ∷ placed) =
        subst (λ rows. Built K d d rows (leaf ∷ placed)) (sym rows2)
          (Built-leaves K d (leaf ∷ placed) leaves (ap suc others ∙ count)) in
      let (s', top, runs, done, stay) = merkelise-Built d d (leaf ∷ placed) s2 b in
      (
        s',
        init_state_tree_step pad d (acc ∷ accs) s s2 count (
              init_leaves_step pad d acc accs placed s s1 s2 (insert-quiet (leaf ∷ []) s)
                (ap (λ p. place_leaves pad p accs) (gen_coordinator_path-binary d) ∙ made)
                (insert-quiet placed s1))
            ∙ runs,
        (λ q bits short. done.tree q bits (omega arith) short),
        (λ q bits short. done.merkle q bits (omega arith) short),
        stay (binary d 0) leaf (omega (arith, length-binary d 0)) (b.nodes 0 leaf refl),
        λ k a e.
            stay (binary d (suc k)) (update_path (binary d (suc k)) a)
              (omega (arith, length-binary d (suc k)))
              (b.nodes (suc k) (update_path (binary d (suc k)) a) (
                subst (λ j. get_elem? placed k ≡ some (update_path (binary d j) a)) (omega arith)
                  (each k a e))),
      )
