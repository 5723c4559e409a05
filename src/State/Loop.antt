-- ===== src/State/Loop.antt =====
-- core/state.go: the loop of `StoreLeaf`, on a table whose statements do not fail.
use reddit_commander.Prelude.{
  ℕ, ◌+◌, ◌≤◌, ◌≡◌, ◌≢◌, ap, sym, subst, ◌∙◌, inl, inr, List, [], ◌∷◌, ◌++◌, length, append_assoc,
  arith, ok, Bool-cases, ◌==◌,
}
use reddit_commander.Bytes.{Str, to_string}
use reddit_commander.NodePath.{IsBit, IsBits, get_parent_path, get_nth_bit_from_right}
use reddit_commander.NodePath.Family.{
  flip, flip_ne, bit_number, get_parent_path-snoc, get_nth_bit-middle,
}
use reddit_commander.NodePath.Spine.{
  from_leaf, length-from_leaf, from_leaf-IsBits, Off, Off-ne, Off-longer, sibling-Off,
}
use reddit_commander.Merkle.{Crypto}
use reddit_commander.Gorm.{Table, IsQuiet}
use reddit_commander.State.{UserState, has_path, assign, store_leaf_loop}
use reddit_commander.State.Rows.{
  Rows, Node, Node-path, Node-unique, IsHash, bytes_of, join-IsHash, hash_to_byte_array-IsHash,
}
use reddit_commander.State.Put.{
  Joined, put_self, put-ne, overwrite-IsHash, put-IsTree, Siblings-put_longer, Siblings-put_tip,
  tip_row, hash-tip_row, Stored,
}
use reddit_commander.State.Spine.{
  put, joined, Siblings, IsTree, store_pair_lem, get_state_by_path_lem, update_root_lem,
}

module _ (K : Crypto) (T : Table UserState) (quiet : IsQuiet T) where
  -- The rows after one round, and the row of the parent that the next round starts from.
  abbrev round_hash : ℕ → UserState → UserState → Str
  round_hash b c x = joined K b c.hash x.hash

  abbrev round_rows : ℕ → List ℕ → UserState → UserState → Rows → Rows
  round_rows b bits c x rows =
      put T K [] (round_hash b c x) (from_leaf bits)
        (put T K c.state_data c.hash (from_leaf (b ∷ bits)) rows)

  abbrev round_node : ℕ → UserState → UserState → UserState → UserState
  round_node b c x n = assign K T [] (round_hash b c x) n

  joined-IsHash : (b : ℕ) (c x : Str) → IsHash (joined K b c x)
  joined-IsHash b c x = elim (Bool-cases (b == 48)) [
    | inl e ↦ rw e (join-IsHash K c x)
    | inr e ↦ rw e (join-IsHash K x c)
  ]

  longer_ne : (b : ℕ) (bits : List ℕ) → from_leaf bits ≢ from_leaf (b ∷ bits)
  longer_ne b bits e =
      omega (arith, ap length e, length-from_leaf bits, length-from_leaf (b ∷ bits))

  round-Node :
      (b : ℕ) (bits : List ℕ) (c x n : UserState) (rows : Rows)
      → Node rows (from_leaf bits) n
      → Node (round_rows b bits c x rows) (from_leaf bits) (round_node b c x n)
  round-Node b bits c x n rows node = put_self K T [] (round_hash b c x) (from_leaf bits) _ n (
      put-ne K T c.state_data c.hash (from_leaf (b ∷ bits)) rows (from_leaf bits) n
        (longer_ne b bits) node)

  round-Off :
      (b : ℕ) (bits : List ℕ) (c x : UserState) (rows : Rows) (q : Str) (r : UserState)
      → Off q (b ∷ bits)
      → Node rows q r
      → Node (round_rows b bits c x rows) q r
  round-Off b bits c x rows q r (ne, off) node =
      put-ne K T [] (round_hash b c x) (from_leaf bits) _ q r (Off-ne q bits off)
        (put-ne K T c.state_data c.hash (from_leaf (b ∷ bits)) rows q r ne node)

  round-child :
      (b : ℕ) (bits : List ℕ) (c x r : UserState) (rows : Rows)
      → Node rows (from_leaf (b ∷ bits)) r
      → Node (round_rows b bits c x rows) (from_leaf (b ∷ bits)) (assign K T c.state_data c.hash r)
  round-child b bits c x r rows node =
      put-ne K T [] (round_hash b c x) (from_leaf bits) _ (from_leaf (b ∷ bits)) _
        (λ e. longer_ne b bits (sym e))
        (put_self K T c.state_data c.hash (from_leaf (b ∷ bits)) rows r node)

  round-IsTree :
      (d b : ℕ) (bits : List ℕ) (c x : UserState) (rows : Rows)
      → IsHash c.hash
      → IsTree d rows
      → IsTree d (round_rows b bits c x rows)
  round-IsTree d b bits c x rows hc tree =
      put-IsTree K T d [] (round_hash b c x) (from_leaf bits) _ (joined-IsHash b c.hash x.hash)
        (put-IsTree K T d c.state_data c.hash (from_leaf (b ∷ bits)) rows hc tree)

  round-Siblings :
      (b : ℕ) (bits : List ℕ) (c x : UserState) (rows : Rows) (sibs : List UserState)
      → IsBits bits
      → Siblings rows bits sibs
      → Siblings (round_rows b bits c x rows) bits sibs
  round-Siblings b bits c x rows sibs ok_bits h =
      Siblings-put_tip K T [] (round_hash b c x) _ bits sibs ok_bits (
        Siblings-put_longer K T c.state_data c.hash (from_leaf (b ∷ bits)) rows bits sibs
          (omega (arith, length-from_leaf (b ∷ bits))) h)

  reads_bit :
      (path p : Str) (b : ℕ) (suffix : Str) (i : ℕ)
      → path ≡ (p ++ b ∷ []) ++ suffix
      → length suffix ≡ i
      → get_nth_bit_from_right path i ≡ ok (bit_number b)
  reads_bit path p b suffix i split len =
      rw (split, ← len, append_assoc p (b ∷ []) suffix) (get_nth_bit-middle p b suffix)

  -- A round of the loop goes on from the parent, with these rows.
  abbrev Goes :
      Str → ℕ → ℕ → List ℕ → UserState → UserState → UserState → List UserState → T.Store → Type 0
  Goes path i b bits c x n sibs s =
      (s' : T.Store) × (store_leaf_loop K T path i (x ∷ sibs) c s
        ≡ store_leaf_loop K T path (i + 1) sibs (round_node b c x n) s')
      × (T.rows s' ≡ round_rows b bits c x (T.rows s))

  store_leaf_loop-Goes :
      (path suffix : Str) (i b : ℕ) (bits : List ℕ) (c x n : UserState) (sibs : List UserState)
      (s : T.Store)
      → path ≡ from_leaf (b ∷ bits) ++ suffix
      → length suffix ≡ i
      → IsBit b
      → c.path ≡ from_leaf (b ∷ bits)
      → IsHash c.hash
      → Node (T.rows s) (from_leaf bits) n
      → Node (T.rows s) (from_leaf bits ++ flip b ∷ []) x
      → IsHash x.hash
      → Goes path i b bits c x n sibs s
  unfolding store_leaf_loop
  store_leaf_loop-Goes path suffix i b bits c x n sibs s split len bit pc hc node sib hx =
      let (s₁, stores, rows₁) =
        store_pair_lem K T quiet b bits c x s bit pc (Node-path (T.rows s) _ x sib) hc hx in
      let parent : get_parent_path c.path ≡ from_leaf bits =
        ap get_parent_path pc ∙ get_parent_path-snoc (from_leaf bits) b in
      let reads : get_nth_bit_from_right path i ≡ ok (bit_number b) =
        reads_bit path (from_leaf bits) b suffix i split len in
      let found : Node (T.rows s₁) (from_leaf bits) (round_node b c x n) =
        subst (λ rows. Node rows (from_leaf bits) (round_node b c x n)) (sym rows₁)
          (round-Node b bits c x n (T.rows s) node) in
      (
        T.tick s₁,
        rw (
          reads,
          stores,
          parent,
          get_state_by_path_lem K T quiet (from_leaf bits) (round_node b c x n) s₁ found,
        ),
        T.rows-tick s₁ ∙ rows₁,
      )

  Joined-intro :
      (rows : Rows) (p : Str) (b : ℕ) (t l x : UserState)
      → IsBit b
      → Node rows p t
      → Node rows (p ++ b ∷ []) l
      → Node rows (p ++ flip b ∷ []) x
      → t.hash ≡ joined K b l.hash x.hash
      → Joined K rows p
  Joined-intro rows p b t l x (inl e) at_t at_l at_x joins = record {
    node = t;
    left = l;
    right = x;
    at = at_t;
    at_left = subst (λ k. Node rows (p ++ k ∷ []) l) e at_l;
    at_right = subst (λ k. Node rows (p ++ flip k ∷ []) x) e at_x;
    joins = subst (λ k. t.hash ≡ joined K k l.hash x.hash) e joins;
  }
  Joined-intro rows p b t l x (inr e) at_t at_l at_x joins = record {
    node = t;
    left = x;
    right = l;
    at = at_t;
    at_left = subst (λ k. Node rows (p ++ flip k ∷ []) x) e at_x;
    at_right = subst (λ k. Node rows (p ++ k ∷ []) l) e at_l;
    joins = subst (λ k. t.hash ≡ joined K k l.hash x.hash) e joins;
  }

  module _ (b : ℕ) (bits : List ℕ) (c x n r : UserState) (rows rows' : Rows) (bit : IsBit b)
      (hc : IsHash c.hash) (child : Node rows (from_leaf (b ∷ bits)) r)
      (sib : Node rows (from_leaf bits ++ flip b ∷ []) x) (node : Node rows (from_leaf bits) n)
      (st : Stored K T bits (round_node b c x n) (round_rows b bits c x rows) rows') where
    after_child : Node rows' (from_leaf (b ∷ bits)) (assign K T c.state_data c.hash r)
    after_child =
        st.off (from_leaf (b ∷ bits)) _
          (Off-longer (from_leaf (b ∷ bits)) bits (omega (arith, length-from_leaf (b ∷ bits))))
          (round-child b bits c x r rows child)

    round-Joined : Joined K rows' (from_leaf bits)
    round-Joined =
        let off : Off (from_leaf bits ++ flip b ∷ []) (b ∷ bits) =
          sibling-Off b bits (flip b) (flip_ne b bit) in
        let next : UserState = round_node b c x n in
        let h : next.hash ≡ round_hash b c x =
          overwrite-IsHash K T (round_hash b c x) n.hash (joined-IsHash b c.hash x.hash) in
        Joined-intro rows' (from_leaf bits) b (tip_row K T bits next next)
          (assign K T c.state_data c.hash r) x bit (st.tip next (round-Node b bits c x n rows node))
          after_child (st.off _ x off.1 (round-Off b bits c x rows _ x off sib))
          (hash-tip_row K T bits next next (rw h (joined-IsHash b c.hash x.hash))
            ∙ h
            ∙ ap (λ k. joined K b k x.hash) (sym (overwrite-IsHash K T c.hash r.hash hc)))

    round-Stored : Stored K T (b ∷ bits) c rows rows'
    round-Stored = record {
      tip = λ t at_t.
          let same : t ≡ r = Node-unique rows (from_leaf (b ∷ bits)) t r at_t child in
          subst (λ k. Node rows' (from_leaf (b ∷ bits)) (assign K T c.state_data c.hash k))
            (sym same) after_child;
      off = λ q t off at_t. st.off q t off.1 (round-Off b bits c x rows q t off at_t);
      above = λ q up. elim up [
        | inl e ↦ subst (Joined K rows') (sym e) round-Joined
        | inr higher ↦ st.above q higher
      ];
    }

  next-IsHash : (b : ℕ) (c x n : UserState) → IsHash (round_node b c x n).hash
  next-IsHash b c x n =
      let h : IsHash (round_hash b c x) = joined-IsHash b c.hash x.hash in
      subst IsHash (sym (overwrite-IsHash K T (round_hash b c x) n.hash h)) h

  abbrev pub Finishes : ℕ → Str → ℕ → List ℕ → List UserState → UserState → T.Store → Type 0
  Finishes d path i bits sibs c s =
      (s' : T.Store) × (store_leaf_loop K T path i sibs c s ≡ (ok tt, s'))
      × IsTree d (T.rows s')
      × Stored K T bits c (T.rows s) (T.rows s')

  -- The write of the root.
  finish_root :
      (d : ℕ) (path : Str) (i : ℕ) (c : UserState) (s : T.Store)
      → IsTree d (T.rows s)
      → IsHash c.hash
      → Finishes d path i [] [] c s
  unfolding store_leaf_loop
  finish_root d path i c s tree hc =
      let root : Rows = put T K [] c.hash [] (T.rows s) in
      let s' : T.Store = T.updated (has_path []) (assign K T [] (to_string (bytes_of c.hash))) s in
      let same : T.rows s' ≡ root =
        T.rows-updated (has_path []) _ s ∙ ap (λ h. put T K [] h [] (T.rows s)) (sym hc.printed) in
      (
        s',
        rw (hash_to_byte_array-IsHash c hc) (update_root_lem K T quiet (bytes_of c.hash) s),
        subst (IsTree d) (sym same) (put-IsTree K T d [] c.hash [] (T.rows s) hc tree),
        subst (Stored K T [] c (T.rows s)) (sym same) (record {
          tip = λ r node. put_self K T [] c.hash [] (T.rows s) r node;
          off = λ q r off node. put-ne K T [] c.hash [] (T.rows s) q r off node;
          above = λ q up. absurd up;
        }),
      )

  -- The loop returns. It leaves a tree, in which the rows off the way are unchanged and each ancestor
  -- joins its children.
  pub store_leaf_loop-Stored :
      (d : ℕ) (bits : List ℕ) (path suffix : Str) (i : ℕ) (sibs : List UserState) (c : UserState)
      → (s : T.Store) → IsBits bits
      → length bits ≤ d
      → IsTree d (T.rows s)
      → Siblings (T.rows s) bits sibs
      → c.path ≡ from_leaf bits
      → IsHash c.hash
      → path ≡ from_leaf bits ++ suffix
      → length suffix ≡ i
      → Finishes d path i bits sibs c s
  store_leaf_loop-Stored d [] path suffix i [] c s ok_bits le tree e pc hc split len =
      finish_root d path i c s tree hc
  store_leaf_loop-Stored d [] path suffix i (x ∷ sibs) c s ok_bits le tree e pc hc split len = cc
  store_leaf_loop-Stored d (b ∷ bits) path suffix i [] c s ok_bits le tree e pc hc split len =
      absurd e
  store_leaf_loop-Stored d (b ∷ bits) path suffix i (x ∷ sibs) c s ok_bits le tree (sib, hx, more)
        pc hc split len =
      let (n, node, hn) =
        tree (from_leaf bits) (from_leaf-IsBits bits ok_bits.1)
          (omega (arith, length-from_leaf bits)) in
      let (r, child, hr) =
        tree (from_leaf (b ∷ bits)) (from_leaf-IsBits (b ∷ bits) ok_bits)
          (omega (arith, length-from_leaf (b ∷ bits))) in
      let (s₁, goes, rows₁) =
        store_leaf_loop-Goes path suffix i b bits c x n sibs s split len ok_bits.0 pc hc node sib
          hx in
      let next : UserState = round_node b c x n in
      let (s', runs, tree', st) =
        store_leaf_loop-Stored d bits path (b ∷ suffix) (i + 1) sibs next s₁ ok_bits.1 (omega arith)
          (subst (IsTree d) (sym rows₁) (round-IsTree d b bits c x (T.rows s) hc tree))
          (subst (λ rows. Siblings rows bits sibs) (sym rows₁)
            (round-Siblings b bits c x (T.rows s) sibs ok_bits.1 more))
          (Node-path (T.rows s) (from_leaf bits) n node) (next-IsHash b c x n)
          (split ∙ append_assoc (from_leaf bits) (b ∷ []) suffix) (omega arith) in
      (
        s',
        goes ∙ runs,
        tree',
        round-Stored b bits c x n r (T.rows s) (T.rows s') ok_bits.0 hc child sib node
            (subst (λ rows. Stored K T bits next rows (T.rows s')) rows₁ st),
      )
