-- ===== src/State/Spine.antt =====
-- core/state.go: `StoreNode` and one round of the loop of `StoreLeaf`, on a table whose statements do
-- not fail.
use reddit_commander.Prelude.{
  ℕ, suc, ◌≤◌, ◌≡◌, refl, ap, sym, subst, ◌∙◌, true, false, inl, inr, List, [], ◌∷◌, ◌++◌, length,
  length-append, All-append, arith, ok, ◌==◌, if◌then◌else◌,
}
use mathlib.Core.Path.{subst₂}
use reddit_commander.Bytes.{Str, Slice, ByteArray, to_string}
use reddit_commander.NodePath.{IsBit, IsBits, get_parent_path}
use reddit_commander.NodePath.Family.{
  flip, flip-IsBit, bit_number, get_parent_path-snoc, get_other_child-snoc,
}
use reddit_commander.NodePath.Spine.{from_leaf, length-from_leaf, from_leaf-IsBits}
use reddit_commander.Merkle.{Crypto}
use reddit_commander.Gorm.{Exec, Table, IsQuiet, map_where}
use reddit_commander.State.{
  UserState, has_path, assign, update_account, update_parent_with_hash, update_root_node_hashes,
  get_state_by_path, get_siblings, get_siblings_loop, store_node, store_pair,
}
use reddit_commander.State.Rows.{
  Rows, Node, IsHash, bytes_of, hash_to_byte_array-IsHash, join, get_parent-join,
}

-- The rows after a write of the columns of one node.
abbrev pub put : (T : Table UserState) → Crypto → Slice → Str → Str → Rows → Rows
put T K payload hash p rows = map_where (has_path p) (assign K T payload hash) rows

-- The parent's hash column, for a child at bit `b` and its sibling.
abbrev pub joined : Crypto → ℕ → Str → Str → Str
joined K b child sibling = if b == 48 then join K child sibling else join K sibling child

-- The siblings of the nodes on the way from the leaf to the root, from the leaf on.
abbrev pub Siblings : Rows → List ℕ → List UserState → Type 0
Siblings rows [] sibs = sibs ≡ []
Siblings rows (b ∷ bits) [] = ⊥
Siblings rows (b ∷ bits) (x ∷ sibs) =
    Node rows (from_leaf bits ++ flip b ∷ []) x × IsHash x.hash × Siblings rows bits sibs

-- Every path of at most `d` bits has exactly one row, and its hash column is readable.
abbrev pub IsTree : ℕ → Rows → Type 0
IsTree d rows =
    (q : Str) → IsBits q → length q ≤ d → (r : UserState) × Node rows q r × IsHash r.hash

-- A call returns, and leaves these rows.
abbrev pub Writes : (T : Table UserState) → Exec T.Store (Unit {0}) → T.Store → Rows → Type 0
Writes T m s rows = (s' : T.Store) × (m s ≡ (ok tt, s')) × (T.rows s' ≡ rows)

pub sibling-IsBits : (b : ℕ) (bits : List ℕ) → IsBits bits → IsBits (from_leaf bits ++ flip b ∷ [])
sibling-IsBits b bits h =
    All-append IsBit (from_leaf bits) (flip b ∷ []) (from_leaf-IsBits bits h) (flip-IsBit b, tt)

pub length-sibling :
    (b : ℕ) (bits : List ℕ) → length (from_leaf bits ++ flip b ∷ []) ≡ suc (length bits)
length-sibling b bits =
    omega (arith, length-append (from_leaf bits) (flip b ∷ []), length-from_leaf bits)

module _ (K : Crypto) (T : Table UserState) (quiet : IsQuiet T) where
  pub update_account_lem :
      (acc : UserState) (p : Str) (s : T.Store)
      → update_account K T acc p s
        ≡ (ok tt, T.updated (has_path p) (assign K T acc.state_data acc.hash) s)
  unfolding update_account
  update_account_lem acc p s = rw (T.update_lem, quiet s)

  pub get_state_by_path_lem :
      (p : Str) (r : UserState) (s : T.Store)
      → Node (T.rows s) p r
      → get_state_by_path K T p s ≡ (ok r, T.tick s)
  unfolding get_state_by_path
  get_state_by_path_lem p r s h = rw (T.find_one_lem, quiet s, h, T.pick_one r)

  update_parent_lem :
      (p : Str) (h : ByteArray) (s : T.Store)
      → update_parent_with_hash K T p h s
        ≡ (ok tt, T.updated (has_path p) (assign K T [] (to_string h)) s)
  unfolding update_parent_with_hash
  update_parent_lem p h s = update_account_lem _ p s

  pub update_root_lem :
      (h : ByteArray) (s : T.Store)
      → update_root_node_hashes K T h s
        ≡ (ok tt, T.updated (has_path []) (assign K T [] (to_string h)) s)
  unfolding update_root_node_hashes
  update_root_lem h s = update_account_lem _ [] s

  -- The store after `StoreNode` has written the columns of `child` and its parent's hash.
  abbrev written : UserState → Str → ByteArray → T.Store → T.Store
  written child parent h s =
      T.updated (has_path parent) (assign K T [] (to_string h))
        (T.updated (has_path child.path) (assign K T child.state_data child.hash) s)

  store_node_left :
      (h : ByteArray) (l r : UserState) (s : T.Store)
      → store_node K T h l r true s ≡ (ok tt, written l (get_parent_path l.path) h s)
  unfolding store_node
  store_node_left h l r s = rw (update_account_lem l l.path s, update_parent_lem)

  store_node_right :
      (h : ByteArray) (l r : UserState) (s : T.Store)
      → store_node K T h l r false s ≡ (ok tt, written r (get_parent_path l.path) h s)
  unfolding store_node
  store_node_right h l r s = rw (update_account_lem r r.path s, update_parent_lem)

  rows-written :
      (child : UserState) (parent : Str) (h : ByteArray) (s : T.Store)
      → T.rows (written child parent h s)
        ≡ put T K []
            (to_string h)
            parent
            (put T K child.state_data child.hash child.path (T.rows s))
  rows-written child parent h s = rw (T.rows-updated, T.rows-updated)

  store_pair_left :
      (c sib : UserState) (s : T.Store)
      → IsHash c.hash
      → IsHash sib.hash
      → Writes T (store_pair K T 0 c sib) s (
          put T K []
            (join K c.hash sib.hash)
            (get_parent_path c.path)
            (put T K c.state_data c.hash c.path (T.rows s)))
  unfolding store_pair
  store_pair_left c sib s hc hs = (
    written c (get_parent_path c.path) (K.keccak256 (bytes_of c.hash ++ bytes_of sib.hash)) s,
    rw
        (
          hash_to_byte_array-IsHash c hc,
          hash_to_byte_array-IsHash sib hs,
          get_parent-join K c.hash sib.hash hc hs,
        )
        (store_node_left (K.keccak256 (bytes_of c.hash ++ bytes_of sib.hash)) c sib s),
    rows-written c (get_parent_path c.path) _ s,
  )

  store_pair_right :
      (c sib : UserState) (s : T.Store)
      → IsHash c.hash
      → IsHash sib.hash
      → Writes T (store_pair K T 1 c sib) s (
          put T K []
            (join K sib.hash c.hash)
            (get_parent_path sib.path)
            (put T K c.state_data c.hash c.path (T.rows s)))
  unfolding store_pair
  store_pair_right c sib s hc hs = (
    written c (get_parent_path sib.path) (K.keccak256 (bytes_of sib.hash ++ bytes_of c.hash)) s,
    rw
        (
          hash_to_byte_array-IsHash sib hs,
          hash_to_byte_array-IsHash c hc,
          get_parent-join K sib.hash c.hash hs hc,
        )
        (store_node_right (K.keccak256 (bytes_of sib.hash ++ bytes_of c.hash)) sib c s),
    rows-written c (get_parent_path sib.path) _ s,
  )

  -- One round writes the columns of the computed node and its parent's hash, which joins the two
  -- children in the order that the bit gives.
  pub store_pair_lem :
      (b : ℕ) (bits : List ℕ) (c sib : UserState) (s : T.Store)
      → IsBit b
      → c.path ≡ from_leaf (b ∷ bits)
      → sib.path ≡ from_leaf bits ++ flip b ∷ []
      → IsHash c.hash
      → IsHash sib.hash
      → Writes T (store_pair K T (bit_number b) c sib) s (
          put T K []
            (joined K b c.hash sib.hash)
            (from_leaf bits)
            (put T K c.state_data c.hash (from_leaf (b ∷ bits)) (T.rows s)))
  store_pair_lem b bits c sib s (inl e) pc ps hc hs =
      let parent : get_parent_path c.path ≡ from_leaf bits =
        ap get_parent_path pc ∙ get_parent_path-snoc (from_leaf bits) b in
      subst
        (λ k. Writes T (store_pair K T (bit_number k) c sib) s (
          put T K [] (joined K k c.hash sib.hash) (from_leaf bits)
            (put T K c.state_data c.hash (from_leaf (b ∷ bits)) (T.rows s))))
        (sym e)
        (subst₂
          (λ parent child. Writes T (store_pair K T 0 c sib) s (
            put T K [] (join K c.hash sib.hash) parent
              (put T K c.state_data c.hash child (T.rows s))))
          parent pc (store_pair_left c sib s hc hs))
  store_pair_lem b bits c sib s (inr e) pc ps hc hs =
      let parent : get_parent_path sib.path ≡ from_leaf bits =
        ap get_parent_path ps ∙ get_parent_path-snoc (from_leaf bits) (flip b) in
      subst
        (λ k. Writes T (store_pair K T (bit_number k) c sib) s (
          put T K [] (joined K k c.hash sib.hash) (from_leaf bits)
            (put T K c.state_data c.hash (from_leaf (b ∷ bits)) (T.rows s))))
        (sym e)
        (subst₂
          (λ parent child. Writes T (store_pair K T 1 c sib) s (
            put T K [] (join K sib.hash c.hash) parent
              (put T K c.state_data c.hash child (T.rows s))))
          parent pc (store_pair_right c sib s hc hs))

  abbrev Collects : List ℕ → T.Store → Type 0
  Collects bits s =
      (sibs : List UserState) × (s' : T.Store) × (get_siblings_loop K T (length bits)
          (from_leaf bits) s
        ≡ (ok sibs, s'))
      × (T.rows s' ≡ T.rows s)
      × Siblings (T.rows s) bits sibs

  Collects-round :
      (b : ℕ) (bits : List ℕ) (s : T.Store) (x : UserState)
      → Node (T.rows s) (from_leaf bits ++ flip b ∷ []) x
      → IsHash x.hash
      → Collects bits (T.tick s)
      → Collects (b ∷ bits) s
  unfolding get_siblings_loop
  Collects-round b bits s x node readable (sibs, s', runs, same, collected) = (
    x ∷ sibs,
    s',
    rw (
      get_other_child-snoc (from_leaf bits) b,
      get_state_by_path_lem _ x s node,
      get_parent_path-snoc (from_leaf bits) b,
      runs,
    ),
    same ∙ T.rows-tick s,
    (node, readable, subst (λ rows. Siblings rows bits sibs) (T.rows-tick s) collected),
  )

  get_siblings_loop-Collects :
      (d : ℕ) (bits : List ℕ) (s : T.Store)
      → IsTree d (T.rows s)
      → IsBits bits
      → length bits ≤ d
      → Collects bits s
  unfolding get_siblings_loop
  get_siblings_loop-Collects d [] s tree ok_bits h = ([], s, refl, refl, refl)
  get_siblings_loop-Collects d (b ∷ bits) s tree ok_bits h =
      let sibling : Str = from_leaf bits ++ flip b ∷ [] in
      let (x, node, readable) =
        tree sibling (sibling-IsBits b bits ok_bits.1) (omega (arith, length-sibling b bits)) in
      Collects-round b bits s x node readable (
        get_siblings_loop-Collects d bits (T.tick s) (subst (IsTree d) (sym (T.rows-tick s)) tree)
          ok_bits.1 (omega arith))

  -- `GetSiblings` returns, on a full tree, the siblings of the nodes on the way, from the leaf on.
  pub get_siblings_lem :
      (d : ℕ) (bits : List ℕ) (path : Str) (s : T.Store)
      → IsTree d (T.rows s)
      → IsBits bits
      → length bits ≤ d
      → from_leaf bits ≡ path
      → (sibs : List UserState) × (s' : T.Store) × (get_siblings K T path s ≡ (ok sibs, s'))
        × (T.rows s' ≡ T.rows s)
        × Siblings (T.rows s) bits sibs
  unfolding get_siblings
  get_siblings_lem d bits path s tree ok_bits h same =
      let (sibs, s', runs, rows', collected) = get_siblings_loop-Collects d bits s tree ok_bits h in
      (sibs, s', rw (← same, length-from_leaf bits) runs, rows', collected)
