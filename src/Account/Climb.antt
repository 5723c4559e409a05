-- ===== src/Account/Climb.antt =====
-- core/account.go: the siblings that `GetAccountSiblings` returns, as a Merkle proof.
use reddit_commander.Prelude.{
  ℕ, ◌≤◌, ◌≡◌, refl, ap, sym, subst, ◌∙◌, List, [], ◌∷◌, ◌++◌, select, length, arith, ok, Outcome,
}
use reddit_commander.Bytes.{Str, Slice}
use reddit_commander.NodePath.{IsBits}
use reddit_commander.NodePath.Family.{flip, get_parent_path-snoc, get_other_child-snoc}
use reddit_commander.NodePath.Spine.{from_leaf, from_leaf_onto, length-from_leaf}
use reddit_commander.Merkle.{Crypto}
use reddit_commander.Gorm.{Table, IsQuiet}
use reddit_commander.State.{UserState, has_path}
use reddit_commander.State.Rows.{Node, IsHash}
use reddit_commander.State.Spine.{Siblings, IsTree, sibling-IsBits, length-sibling}
use reddit_commander.State.Update.{IsMerkle}
use reddit_commander.State.Climb.{climb, climb-Siblings}
use reddit_commander.Account.{
  Account, at_path, get_account_leaf_by_path, get_account_siblings_loop, get_account_siblings,
}
use reddit_commander.Account.Nodes.{as_node, nodes, select-nodes}

-- The one row of a node.
one_row :
    (accs : List Account) (r : UserState)
    → nodes accs ≡ r ∷ []
    → (a : Account) × (accs ≡ a ∷ []) × (as_node a ≡ r)
one_row [] r e = cc
one_row (a ∷ []) r e = (a, refl, cc)
one_row (a ∷ b ∷ accs) r e = cc

row_of :
    (rows : List Account) (p : Str) (r : UserState)
    → Node (nodes rows) p r
    → (a : Account) × (select (at_path p) rows ≡ a ∷ []) × (as_node a ≡ r)
row_of rows p r at = one_row (select (at_path p) rows) r (sym (select-nodes (has_path p) rows) ∙ at)

module _ (K : Crypto) (pack_bytes : Slice → Outcome Slice) (T : Table Account)
    (quiet : IsQuiet T) where
  get_account_leaf_by_path_lem :
      (p : Str) (a : Account) (s : T.Store)
      → select (at_path p) (T.rows s) ≡ a ∷ []
      → get_account_leaf_by_path K pack_bytes T p s ≡ (ok a, T.tick s)
  unfolding get_account_leaf_by_path
  get_account_leaf_by_path_lem p a s h = rw (T.find_one_lem, quiet s, h, T.pick_one a) refl

  abbrev Collects : List ℕ → T.Store → Type 0
  Collects bits s =
      (sibs : List Account) × (s' : T.Store) × (get_account_siblings_loop K pack_bytes T
          (length bits) (from_leaf bits) s
        ≡ (ok sibs, s'))
      × (T.rows s' ≡ T.rows s)
      × Siblings (nodes (T.rows s)) bits (nodes sibs)

  get_account_siblings_loop-Collects :
      (d : ℕ) (bits : List ℕ) (s : T.Store)
      → IsTree d (nodes (T.rows s))
      → IsBits bits
      → length bits ≤ d
      → Collects bits s
  unfolding get_account_siblings_loop
  get_account_siblings_loop-Collects d [] s tree ok_bits h = ([], s, refl, refl, refl)
  get_account_siblings_loop-Collects d (b ∷ bits) s tree ok_bits h =
      let sibling : Str = from_leaf bits ++ flip b ∷ [] in
      let (x, node, readable) =
        tree sibling (sibling-IsBits b bits ok_bits.1) (omega (arith, length-sibling b bits)) in
      let (a, at, same) = row_of (T.rows s) sibling x node in
      let (sibs, s', runs, rows, collected) =
        get_account_siblings_loop-Collects d bits (T.tick s)
          (subst (λ rows. IsTree d (nodes rows)) (sym (T.rows-tick s)) tree) ok_bits.1
          (omega arith) in
      (
        a ∷ sibs,
        s',
        rw
            (
              get_other_child-snoc (from_leaf bits) b,
              get_account_leaf_by_path_lem sibling a s at,
              get_parent_path-snoc (from_leaf bits) b,
              runs,
            )
            refl,
        rows ∙ T.rows-tick s,
        (
          subst (Node (nodes (T.rows s)) sibling) (sym same) node,
          subst (λ (r : UserState). IsHash r.hash) (sym same) readable,
          subst (λ rows. Siblings (nodes rows) bits (nodes sibs)) (T.rows-tick s) collected,
        ),
      )

  -- On a full account tree whose inner nodes join their children, and where no statement fails,
  -- `GetAccountSiblings` of the path of a node, inner or leaf, returns, without changing a row, a
  -- Merkle proof: the hash computed from the node's hash and the siblings' hashes is the root's.
  pub get_account_siblings-climb :
      (d : ℕ) (path : Str) (s : T.Store) (node root : UserState)
      → IsBits path
      → length path ≤ d
      → IsTree d (nodes (T.rows s))
      → IsMerkle K d (nodes (T.rows s))
      → Node (nodes (T.rows s)) path node
      → Node (nodes (T.rows s)) [] root
      → (bits : List ℕ) × (sibs : List Account) × (s' : T.Store) × (from_leaf bits ≡ path)
        × (get_account_siblings K pack_bytes T path s ≡ (ok sibs, s'))
        × (T.rows s' ≡ T.rows s)
        × (climb K bits node.hash (nodes sibs) ≡ root.hash)
  unfolding get_account_siblings
  get_account_siblings-climb d path s node root ok_bits len tree merkle at_node at_root =
      let (bits, h, same) = from_leaf_onto path ok_bits in
      let short : length bits ≤ d = omega (arith, ap length same, length-from_leaf bits) in
      let (sibs, s', runs, rows, collected) =
        get_account_siblings_loop-Collects d bits s tree h short in
      (
        bits,
        sibs,
        s',
        same,
        rw (← same, length-from_leaf bits) runs,
        rows,
        climb-Siblings K d bits (nodes (T.rows s)) (nodes sibs) node root h short merkle collected
            (subst (λ p. Node (nodes (T.rows s)) p node) (sym same) at_node) at_root,
      )
