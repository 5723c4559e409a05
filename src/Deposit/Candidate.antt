-- ===== src/Deposit/Candidate.antt =====
-- core/DepositTree.go: the node that a deposit subtree is to replace.
use reddit_commander.Prelude.{
  ℕ, ◌+◌, ◌-◌, All-get_elem?, get_elem?-All, ◌≤◌, ◌<◌, ◌≡◌, ◌≢◌, refl, sym, ap, ◌∙◌, subst, Bool,
  true, ◌&&◌, Bool-cases, inl, inr, and_left, and_right, List, [], ◌∷◌, length, All, All-imp,
  select, get_elem?, arith, ok, some, ◌==◌, ==_iff, list_eq, list_eq→eq, list_eq_refl,
}
use reddit_commander.Bytes.{Str, to_string}
use reddit_commander.NodePath.{IsBits}
use reddit_commander.NodePath.Spine.{from_leaf, length-from_leaf}
use reddit_commander.Merkle.{Crypto}
use reddit_commander.Merkle.Defaults.{empty_root, gen_default_hashes_lem}
use reddit_commander.Gorm.{Table, IsQuiet}
use reddit_commander.Gorm.Select.{All-found}
use reddit_commander.State.{UserState, has_path, get_deposit_sub_tree_root}
use reddit_commander.State.Rows.{Rows, Node}
use reddit_commander.State.Spine.{IsTree}
use reddit_commander.State.Update.{IsMerkle}
use reddit_commander.State.Climb.{climb, get_siblings-climb}
use reddit_commander.Params.{Params}
use reddit_commander.Params.Writes.{get_params_one}
use reddit_commander.Database.{Tables, Db}
use reddit_commander.Deposit.{default_hashes, minus_uint64, get_deposit_node_and_siblings}

-- The candidates: the rows at this level with this hash.
abbrev pub is_candidate : ℕ → Str → UserState → Bool
is_candidate level hash row = row.level == level && list_eq row.hash hash

none_else : (xs : Rows) (p : Str) → select (has_path p) xs ≡ [] → All (λ x. x.path ≢ p) xs
none_else [] p e = tt
none_else (x ∷ xs) p e = elim (Bool-cases (has_path p x)) [
  | inl f ↦ absurd (omega (arith, ap length (rw f at e)))
  | inr f ↦ (
    λ same. let there : has_path p x ≡ true = rw same (list_eq_refl p) in cc,
    none_else xs p (rw f at e),
  )
]

-- Where one row has a path, every row with the path is that row.
only_row : (xs : Rows) (p : Str) (r : UserState) → Node xs p r → All (λ x. x.path ≡ p → x ≡ r) xs
only_row [] p r e = tt
only_row (x ∷ xs) p r e = elim (Bool-cases (has_path p x)) [
  | inl f ↦
      let h : x ∷ select (has_path p) xs ≡ r ∷ [] = rw f at e in
      let rest : select (has_path p) xs ≡ [] = cc in
      (λ same. cc, All-imp xs (λ y ne same. absurd (ne same)) (none_else xs p rest))
  | inr f ↦ (
    λ same. let there : has_path p x ≡ true = rw same (list_eq_refl p) in cc,
    only_row xs p r (rw f at e),
  )
]

rows_of_tree :
    (d : ℕ) (rows : Rows)
    → IsTree d rows
    → All (λ x. IsBits x.path → length x.path ≤ d → Node rows x.path x) rows
rows_of_tree d rows tree = get_elem?-All _ rows λ i x at bits le.
    let (r, node, hash) = tree x.path bits le in
    let same : x ≡ r =
      All-get_elem? (λ y. y.path ≡ x.path → y ≡ r) rows i x (only_row rows x.path r node) at refl in
    subst (Node rows x.path) (sym same) node

module _ (K : Crypto) (T : Table UserState) (quiet : IsQuiet T) where
  -- A candidate that is a node of the tree.
  abbrev Candidate : ℕ → Str → Rows → UserState → Type 0
  Candidate level hash rows x =
      IsBits x.path × (length x.path ≡ level) × (x.hash ≡ hash) × Node rows x.path x

  Candidates :
      (d level : ℕ) (hash : Str) (rows : Rows)
      → level ≤ d
      → IsTree d rows
      → All (λ x. is_candidate level hash x ≡ true → IsBits x.path × (x.level ≡ length x.path)) rows
      → All (Candidate level hash rows) (select (is_candidate level hash) rows)
  Candidates d level hash rows le tree nodes =
      All-found (Candidate level hash rows) (is_candidate level hash) rows (
        get_elem?-All _ rows λ i x at e.
          let (bits, at_level) =
            All-get_elem?
              (λ x. is_candidate level hash x ≡ true → IsBits x.path × (x.level ≡ length x.path))
              rows i x nodes at e in
          let here : x.level ≡ level =
            (==_iff x.level level).0 (and_left (x.level == level) (list_eq x.hash hash) e) in
          (
            bits,
            omega (arith, at_level, here),
            list_eq→eq x.hash hash (and_right (x.level == level) (list_eq x.hash hash) e),
            All-get_elem? _ rows i x (rows_of_tree d rows tree) at bits
                (omega (arith, at_level, here)),
          ))

  get_deposit_sub_tree_root-Candidate :
      (d level : ℕ) (hash : Str) (s : T.Store) (r : UserState) (rs : Rows)
      → level ≤ d
      → IsTree d (T.rows s)
      → All
          (λ x. is_candidate level hash x ≡ true → IsBits x.path × (x.level ≡ length x.path))
          (T.rows s)
      → select (is_candidate level hash) (T.rows s) ≡ r ∷ rs
      → (x : UserState) × (get_deposit_sub_tree_root K T hash level s ≡ (ok x, T.tick s))
        × Candidate level hash (T.rows s) x
  unfolding get_deposit_sub_tree_root
  get_deposit_sub_tree_root-Candidate d level hash s r rs le tree nodes found =
      let (x, picked, candidate) = T.pick_some (Candidate level hash (T.rows s)) r rs (
        subst (All (Candidate level hash (T.rows s))) found
          (Candidates d level hash (T.rows s) le tree nodes)) in
      (x, rw (T.find_one_lem (is_candidate level hash) s, quiet s, found, picked) refl, candidate)

pub default_hashes_lem :
    (K : Crypto) (h : ℕ)
    → h < 100
    → (hashes : List (List ℕ)) × (default_hashes K ≡ ok hashes)
      × (get_elem? hashes h ≡ some (empty_root K h))
unfolding default_hashes
default_hashes_lem K h small =
    let (hashes, made, count, filled) = gen_default_hashes_lem K 100 (omega arith) in
    (hashes, made, filled h small)

module _ (K : Crypto) (G : Tables) (quiet : IsQuiet G.state_table)
    (quiet_params : IsQuiet G.params_table) where
  level_of : (d h : ℕ) → h ≤ d → d ≤ 64 → minus_uint64 d h ≡ d - h
  level_of d h le hi = omega arith

  -- On a full tree whose inner nodes join their children, with the parameters' row of its depth, at
  -- most 64, and of a height not above it: where some row has the level of the root of a subtree of
  -- this height and the hash of the empty one, each such row is a node of the tree at its level's
  -- path, and no statement fails, `GetDepositNodeAndSiblings` returns a node of the tree at this
  -- level and a Merkle proof for it: from the hash of the empty subtree and the siblings' hashes the
  -- root's hash is computed. It changes no row.
  pub get_deposit_node_and_siblings-climb :
      (p : Params) (r root : UserState) (rs : Rows) (db : Db G)
      → p.max_deposit_sub_tree_height ≤ p.max_depth
      → p.max_depth ≤ 64
      → G.params_table.rows db.params ≡ p ∷ []
      → IsTree p.max_depth (G.state_table.rows db.states)
      → IsMerkle K p.max_depth (G.state_table.rows db.states)
      → All
          (λ x.
            is_candidate
                (p.max_depth - p.max_deposit_sub_tree_height)
                (to_string (empty_root K p.max_deposit_sub_tree_height))
                x
              ≡ true
            → IsBits x.path × (x.level ≡ length x.path))
          (G.state_table.rows db.states)
      → select
          (is_candidate
            (p.max_depth - p.max_deposit_sub_tree_height)
            (to_string (empty_root K p.max_deposit_sub_tree_height)))
          (G.state_table.rows db.states)
        ≡ r ∷ rs
      → Node (G.state_table.rows db.states) [] root
      → (node : UserState) × (bits : List ℕ) × (sibs : List UserState) × (db' : Db G)
        × (get_deposit_node_and_siblings K G db ≡ (ok (node, sibs), db'))
        × (G.state_table.rows db'.states ≡ G.state_table.rows db.states)
        × Node (G.state_table.rows db.states) (from_leaf bits) node
        × (length bits + p.max_deposit_sub_tree_height ≡ p.max_depth)
        × (climb K bits (to_string (empty_root K p.max_deposit_sub_tree_height)) sibs ≡ root.hash)
  unfolding get_deposit_node_and_siblings
  get_deposit_node_and_siblings-climb p r root rs db le hi one tree merkle nodes found at_root =
      let rows : Rows = G.state_table.rows db.states in
      let h : ℕ = p.max_deposit_sub_tree_height in
      let (hashes, made, entry) = default_hashes_lem K h (omega arith) in
      let (x, picked, (bits_of, len, hash, node)) =
        get_deposit_sub_tree_root-Candidate K G.state_table quiet p.max_depth (p.max_depth - h)
          (to_string (empty_root K h)) db.states r rs (omega arith) tree nodes found in
      let s1 : G.state_table.Store = G.state_table.tick db.states in
      let same1 : G.state_table.rows s1 ≡ rows = G.state_table.rows-tick db.states in
      let (bits, sibs, s2, same, reads, rows2, proof) =
        get_siblings-climb K G.state_table p.max_depth x.path s1 x root quiet bits_of
          (omega (arith, len)) (subst (IsTree p.max_depth) (sym same1) tree)
          (subst (IsMerkle K p.max_depth) (sym same1) merkle)
          (subst (λ xs. Node xs x.path x) (sym same1) node)
          (subst (λ xs. Node xs [] root) (sym same1) at_root) in
      (
        x,
        bits,
        sibs,
        record db { params = G.params_table.tick db.params; states = s2 },
        rw
            (
              get_params_one G.params_table quiet_params p db.params one,
              made,
              entry,
              level_of p.max_depth h le hi,
              picked,
              reads,
            )
            refl,
        rows2 ∙ same1,
        subst (λ q. Node rows q x) (sym same) node,
        omega (arith, len, ap length same, length-from_leaf bits),
        ap (λ k. climb K bits k sibs) (sym hash) ∙ proof,
      )
