-- ===== src/State/Update.antt =====
-- core/state.go: what `UpdateState` leaves of the state tree.
use reddit_commander.Prelude.{
  ℕ, ◌<◌, ◌≡◌, ◌≢◌, refl, ap, sym, subst, ◌∙◌, inl, inr, List, [], ◌∷◌, length, append-nil, arith,
  ok,
}
use reddit_commander.Bytes.{Str}
use reddit_commander.NodePath.{IsBits}
use reddit_commander.NodePath.Spine.{
  from_leaf, from_leaf_onto, length-from_leaf, Off, Off-child, Off-cases, Ancestor,
}
use reddit_commander.Merkle.{Crypto}
use reddit_commander.Gorm.{Table, IsQuiet}
use reddit_commander.State.{UserState, assign, create_account_hash, store_leaf, update_state}
use reddit_commander.State.Rows.{Rows, Node, IsHash, to_string-IsHash}
use reddit_commander.State.Spine.{Siblings, IsTree, get_siblings_lem}
use reddit_commander.State.Put.{Joined, Stored}
use reddit_commander.State.Loop.{store_leaf_loop-Stored}

-- Every inner node's hash column joins those of its children.
abbrev pub IsMerkle : Crypto → ℕ → Rows → Type 0
IsMerkle K d rows = (q : Str) → IsBits q → length q < d → Joined K rows q

-- What a leaf's update has made of the rows of a tree of depth `d`.
pub record Updated (K : Crypto) (T : Table UserState) (d : ℕ) (account : UserState)
    (rows rows' : Rows) : Type 0 where
  pub tree : IsTree d rows'
  pub merkle : IsMerkle K d rows'
  -- the leaf has the new bytes, unless these are empty, and their hash
  pub leaf :
      (r : UserState)
      → Node rows account.path r
      → Node rows' account.path
          (assign K T account.state_data (create_account_hash K account).hash r)
  -- the other leaves are as before
  pub others :
      (q : Str) (r : UserState) → length q ≡ d → q ≢ account.path → Node rows q r → Node rows' q r

Ancestor-shorter : (q : Str) (bits : List ℕ) → Ancestor q bits → length q < length bits
Ancestor-shorter q [] up = absurd up
Ancestor-shorter q (b ∷ bits) (inl e) = omega (arith, ap length e, length-from_leaf bits)
Ancestor-shorter q (b ∷ bits) (inr up) = omega (arith, Ancestor-shorter q bits up)

Off-leaf : (q : Str) (bits : List ℕ) → length q ≡ length bits → q ≢ from_leaf bits → Off q bits
Off-leaf q bits len ne = elim (Off-cases q bits) [
  | inl off ↦ off
  | inr (inl e) ↦ absurd (ne e)
  | inr (inr up) ↦ absurd (omega (arith, Ancestor-shorter q bits up))
]

module _ (K : Crypto) (T : Table UserState) where
  IsMerkle-Stored :
      (d : ℕ) (bits : List ℕ) (c : UserState) (rows rows' : Rows)
      → length bits ≡ d
      → IsMerkle K d rows
      → Stored K T bits c rows rows'
      → IsMerkle K d rows'
  IsMerkle-Stored d bits c rows rows' len merkle st q ok_bits short = elim (Off-cases q bits) [
    | inl off ↦
        let j : Joined K rows q = merkle q ok_bits short in
        record {
          node = j.node;
          left = j.left;
          right = j.right;
          at = st.off q j.node off j.at;
          at_left = st.off _ j.left (Off-child q 48 bits off) j.at_left;
          at_right = st.off _ j.right (Off-child q 49 bits off) j.at_right;
          joins = j.joins;
        }
    | inr (inl e) ↦ absurd (omega (arith, ap length e, length-from_leaf bits))
    | inr (inr up) ↦ st.above q up
  ]

  created-IsHash : (account : UserState) → IsHash (create_account_hash K account).hash
  unfolding create_account_hash
  created-IsHash account = rw (K.hash_string_lem (K.keccak256 account.state_data)) (
      to_string-IsHash (K.keccak256 account.state_data)
        (K.keccak256-IsByteArray account.state_data))

  created-path : (account : UserState) → (create_account_hash K account).path ≡ account.path
  unfolding create_account_hash
  created-path account = refl

  created-data :
      (account : UserState) → (create_account_hash K account).state_data ≡ account.state_data
  unfolding create_account_hash
  created-data account = refl

  Updated-Stored :
      (d b : ℕ) (bits : List ℕ) (account : UserState) (rows rows' : Rows)
      → length (b ∷ bits) ≡ d
      → from_leaf (b ∷ bits) ≡ account.path
      → IsMerkle K d rows
      → IsTree d rows'
      → Stored K T (b ∷ bits) (create_account_hash K account) rows rows'
      → Updated K T d account rows rows'
  Updated-Stored d b bits account rows rows' len same merkle tree st = record {
    tree = tree;
    merkle = IsMerkle-Stored d (b ∷ bits) (create_account_hash K account) rows rows' len merkle st;
    leaf = λ r node.
        subst
          (λ p. Node rows' p (assign K T account.state_data (create_account_hash K account).hash r))
          same
          (subst
            (λ x.
              Node rows' (from_leaf (b ∷ bits))
                (assign K T x (create_account_hash K account).hash r))
            (created-data account) (st.tip r (subst (λ p. Node rows p r) (sym same) node)));
    others = λ q r leaf ne node.
        st.off q r (Off-leaf q (b ∷ bits) (leaf ∙ sym len) (λ e. ne (e ∙ same))) node;
  }

  module _ (quiet : IsQuiet T) where
    -- `UpdateState` in the terms of the path's bits from its end.
    update_state-bits :
        (d b : ℕ) (bits : List ℕ) (account : UserState) (s : T.Store)
        → IsBits (b ∷ bits)
        → length (b ∷ bits) ≡ d
        → from_leaf (b ∷ bits) ≡ account.path
        → IsTree d (T.rows s)
        → IsMerkle K d (T.rows s)
        → (s' : T.Store) × (update_state K T account s ≡ (ok tt, s'))
          × Updated K T d account (T.rows s) (T.rows s')
    unfolding update_state store_leaf
    update_state-bits d b bits account s ok_bits len same tree merkle =
        let (sibs, s₁, reads, rows₁, collected) =
          get_siblings_lem K T quiet d (b ∷ bits) account.path s tree ok_bits (omega arith) same in
        let (s', runs, tree', st) =
          store_leaf_loop-Stored K T quiet d (b ∷ bits) account.path [] 0 sibs
            (create_account_hash K account) s₁ ok_bits (omega arith)
            (subst (IsTree d) (sym rows₁) tree)
            (subst (λ rows. Siblings rows (b ∷ bits) sibs) (sym rows₁) collected)
            (created-path account ∙ sym same) (created-IsHash account)
            (sym same ∙ sym (append-nil (from_leaf (b ∷ bits)))) refl in
        (
          s',
          rw reads runs,
          Updated-Stored d b bits account (T.rows s) (T.rows s') len same merkle tree' (
              subst (λ rows. Stored K T (b ∷ bits) (create_account_hash K account) rows (T.rows s'))
                rows₁ st),
        )

    -- On a full tree of depth `d` whose inner nodes join their children, and where no statement
    -- fails, the update of a leaf returns without an error or a panic. All of this holds again
    -- after it, the leaf has its new columns and every other leaf is unchanged.
    pub update_state-Updated :
        (d : ℕ) (account : UserState) (s : T.Store)
        → 0 < d
        → IsBits account.path
        → length account.path ≡ d
        → IsTree d (T.rows s)
        → IsMerkle K d (T.rows s)
        → (s' : T.Store) × (update_state K T account s ≡ (ok tt, s'))
          × Updated K T d account (T.rows s) (T.rows s')
    update_state-Updated d account s pos ok_bits len tree merkle =
        by_bits (from_leaf_onto account.path ok_bits)
      where
        by_bits :
            (bits : List ℕ) × IsBits bits × (from_leaf bits ≡ account.path)
            → (s' : T.Store) × (update_state K T account s ≡ (ok tt, s'))
              × Updated K T d account (T.rows s) (T.rows s')
        by_bits ([], h, same) = absurd (omega (arith, ap length same))
        by_bits (b ∷ bits, h, same) =
            update_state-bits d b bits account s h
              (omega (arith, ap length same, length-from_leaf (b ∷ bits))) same tree merkle
