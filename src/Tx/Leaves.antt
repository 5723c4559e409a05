-- ===== src/Tx/Leaves.antt =====
-- core/tx.go: the leaves that `Apply` updates.
use reddit_commander.Prelude.{ℕ, ◌<◌, ◌≡◌, ◌≢◌, refl, sym, ap, ◌∙◌, subst, length, arith, ok}
use reddit_commander.Bytes.{Str, Slice}
use reddit_commander.NodePath.{IsBits}
use reddit_commander.NodePath.Binary.{binary, length-binary, binary-IsBits}
use reddit_commander.Merkle.{Crypto}
use reddit_commander.Gorm.{IsQuiet}
use reddit_commander.State.{UserState, assign, update_state, create_account_hash}
use reddit_commander.State.Rows.{Rows, Node, Node-path}
use reddit_commander.State.Spine.{IsTree}
use reddit_commander.State.Update.{IsMerkle, Updated, update_state-Updated}
use reddit_commander.Database.{Tables}
use reddit_commander.Tx.{Tx}
use reddit_commander.Tx.Apply.{with_data}

module _ (K : Crypto) (G : Tables) where
  -- The row with these bytes, unless they are empty, and their hash.
  abbrev pub holding : Slice → UserState → UserState
  holding payload r = assign K G.state_table payload (K.hash_string (K.keccak256 payload)) r

  -- What a transaction between the leaves of two indices has made of a tree of depth `d`.
  pub record Applied (d : ℕ) (tx : Tx) (updated_from updated_to : Slice) (rows rows' : Rows)
      : Type 0 where
    pub tree : IsTree d rows'
    pub merkle : IsMerkle K d rows'
    pub sender :
        (r : UserState)
        → Node rows (binary d tx.from) r
        → Node rows' (binary d tx.from) (holding updated_from r)
    pub receiver :
        (r : UserState)
        → Node rows (binary d tx.to) r
        → Node rows' (binary d tx.to) (holding updated_to r)
    pub others :
        (q : Str) (r : UserState)
        → length q ≡ d
        → q ≢ binary d tx.from
        → q ≢ binary d tx.to
        → Node rows q r
        → Node rows' q r

  created-hash :
      (payload : Slice) (acc : UserState)
      → (create_account_hash K (with_data K G payload acc)).hash
        ≡ K.hash_string (K.keccak256 payload)
  unfolding create_account_hash
  created-hash payload acc = refl

  module _ (quiet : IsQuiet G.state_table) where
    -- The update of a leaf of a tree that the table holds.
    pub update_leaf :
        (d index : ℕ) (payload : Slice) (leaf : UserState) (rows : Rows) (s : G.state_table.Store)
        → 0 < d
        → leaf.path ≡ binary d index
        → IsTree d rows
        → IsMerkle K d rows
        → G.state_table.rows s ≡ rows
        → (s' : G.state_table.Store) × (update_state K G.state_table (with_data K G payload leaf) s
            ≡ (ok tt, s'))
          × Updated K G.state_table d (with_data K G payload leaf) rows (G.state_table.rows s')
    update_leaf d index payload leaf rows s pos at tree merkle same =
        let (s', runs, u) =
          update_state-Updated K G.state_table quiet d (with_data K G payload leaf) s pos
            (subst IsBits (sym at) (binary-IsBits d index)) (ap length at ∙ length-binary d index)
            (subst (IsTree d) (sym same) tree) (subst (IsMerkle K d) (sym same) merkle) in
        (
          s',
          runs,
          subst
              (λ xs.
                Updated K G.state_table d (with_data K G payload leaf) xs (G.state_table.rows s'))
              same u,
        )

    -- The leaf of an index and its path.
    pub leaf_of :
        (d index : ℕ) (rows : Rows)
        → IsTree d rows
        → (r : UserState) × Node rows (binary d index) r × (r.path ≡ binary d index)
    leaf_of d index rows tree =
        let (r, at, hash) =
          tree (binary d index) (binary-IsBits d index) (omega (arith, length-binary d index)) in
        (r, at, Node-path rows (binary d index) r at)

    Updated-holding :
        (d : ℕ) (payload : Slice) (leaf : UserState) (rows rows' : Rows) (q : Str) (r : UserState)
        → leaf.path ≡ q
        → Updated K G.state_table d (with_data K G payload leaf) rows rows'
        → Node rows q r
        → Node rows' q (holding payload r)
    Updated-holding d payload leaf rows rows' q r at u node =
        subst (λ h. Node rows' q (assign K G.state_table payload h r)) (created-hash payload leaf)
          (subst
            (λ n. Node rows' n (
              assign K G.state_table payload
                (create_account_hash K (with_data K G payload leaf)).hash r))
            at (u.leaf r (subst (λ n. Node rows n r) (sym at) node)))

    -- Both updates, one after the other.
    pub Applied-both :
        (d : ℕ) (tx : Tx) (uf ut : Slice) (from_acc to_acc : UserState) (rows rows1 rows2 : Rows)
        → binary d tx.from ≢ binary d tx.to
        → from_acc.path ≡ binary d tx.from
        → to_acc.path ≡ binary d tx.to
        → Updated K G.state_table d (with_data K G uf from_acc) rows rows1
        → Updated K G.state_table d (with_data K G ut to_acc) rows1 rows2
        → Applied d tx uf ut rows rows2
    Applied-both d tx uf ut from_acc to_acc rows rows1 rows2 apart at_from at_to u1 u2 = record {
      tree = u2.tree;
      merkle = u2.merkle;
      sender = λ r node.
          u2.others (binary d tx.from) (holding uf r) (length-binary d tx.from)
            (λ e. apart (e ∙ at_to))
            (Updated-holding d uf from_acc rows rows1 (binary d tx.from) r at_from u1 node);
      receiver = λ r node. Updated-holding d ut to_acc rows1 rows2 (binary d tx.to) r at_to u2 (
          u1.others (binary d tx.to) r (length-binary d tx.to) (λ e. apart (sym (e ∙ at_from)))
            node);
      others = λ q r len ne_from ne_to node.
          u2.others q r len (λ e. ne_to (e ∙ at_to))
            (u1.others q r len (λ e. ne_from (e ∙ at_from)) node);
    }
