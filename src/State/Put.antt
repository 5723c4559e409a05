-- ===== src/State/Put.antt =====
-- core/state.go: what the write of one node leaves of the tree, and of the siblings on the way up.
use reddit_commander.Prelude.{
  ℕ, ◌<◌, ◌≡◌, ◌≢◌, refl, ap, sym, subst, inl, inr, List, [], ◌∷◌, ◌++◌, length, length-append,
  arith, list_eq, list_eq→eq, Bool-cases,
}
use reddit_commander.Bytes.{Str, Slice, to_string}
use reddit_commander.NodePath.{IsBits}
use reddit_commander.NodePath.Family.{flip, flip_ne, last_injective}
use reddit_commander.NodePath.Spine.{from_leaf, length-from_leaf, Off, Ancestor, not_same}
use reddit_commander.Merkle.{Crypto}
use reddit_commander.Gorm.{Table}
use reddit_commander.State.{UserState, assign}
use reddit_commander.State.Rows.{Rows, Node, Node-map_where_self, Node-map_where_ne, IsHash, join}
use reddit_commander.State.Spine.{put, Siblings, IsTree}

-- The node's hash column joins those of its two children.
pub record Joined (K : Crypto) (rows : Rows) (q : Str) : Type 0 where
  pub node : UserState
  pub left : UserState
  pub right : UserState
  pub at : Node rows q node
  pub at_left : Node rows (q ++ 48 ∷ []) left
  pub at_right : Node rows (q ++ 49 ∷ []) right
  pub joins : node.hash ≡ join K left.hash right.hash

module _ (K : Crypto) (T : Table UserState) where
  pub put_self :
      (payload : Slice) (hash p : Str) (rows : Rows) (r : UserState)
      → Node rows p r
      → Node (put T K payload hash p rows) p (assign K T payload hash r)
  put_self payload hash p rows r h =
      Node-map_where_self (assign K T payload hash) (λ x. refl) rows p r h

  pub put-ne :
      (payload : Slice) (hash p : Str) (rows : Rows) (q : Str) (r : UserState)
      → q ≢ p
      → Node rows q r
      → Node (put T K payload hash p rows) q r
  put-ne payload hash p rows q r ne h =
      Node-map_where_ne (assign K T payload hash) (λ x. refl) rows p q r ne h

  -- A readable hash is not blank, so it is written.
  pub overwrite-IsHash : (hash old : Str) → IsHash hash → T.overwrite hash old ≡ hash
  unfolding to_string
  overwrite-IsHash [] old h = cc (h.printed)
  overwrite-IsHash (c ∷ hash) old h = T.overwrite_set c hash old

  pub put-IsTree :
      (d : ℕ) (payload : Slice) (hash p : Str) (rows : Rows)
      → IsHash hash
      → IsTree d rows
      → IsTree d (put T K payload hash p rows)
  put-IsTree d payload hash p rows readable tree q ok_bits le =
      let (r, node, h) = tree q ok_bits le in
      elim (Bool-cases (list_eq q p)) [
        | inl same ↦
            let e : q ≡ p = list_eq→eq q p same in
            (
              assign K T payload hash r,
              subst (λ k. Node (put T K payload hash p rows) k (assign K T payload hash r)) (sym e)
                  (put_self payload hash p rows r (subst (λ k. Node rows k r) e node)),
              subst IsHash (sym (overwrite-IsHash hash r.hash readable)) readable,
            )
        | inr other ↦ (r, put-ne payload hash p rows q r (not_same q p other) node, h)
      ]

  pub Siblings-put_longer :
      (payload : Slice) (hash p : Str) (rows : Rows) (bits : List ℕ) (sibs : List UserState)
      → length bits < length p
      → Siblings rows bits sibs
      → Siblings (put T K payload hash p rows) bits sibs
  Siblings-put_longer payload hash p rows [] sibs h e = e
  Siblings-put_longer payload hash p rows (b ∷ bits) [] h e = e
  Siblings-put_longer payload hash p rows (b ∷ bits) (x ∷ sibs) h (node, readable, more) = (
    put-ne payload hash p rows (from_leaf bits ++ flip b ∷ []) x
        (λ e.
          omega (
            arith,
            ap length e,
            length-append (from_leaf bits) (flip b ∷ []),
            length-from_leaf bits,
          ))
        node,
    readable,
    Siblings-put_longer payload hash p rows bits sibs (omega arith) more,
  )

  pub Siblings-put_tip :
      (payload : Slice) (hash : Str) (rows : Rows) (bits : List ℕ) (sibs : List UserState)
      → IsBits bits
      → Siblings rows bits sibs
      → Siblings (put T K payload hash (from_leaf bits) rows) bits sibs
  Siblings-put_tip payload hash rows [] sibs ok_bits e = e
  Siblings-put_tip payload hash rows (b ∷ bits) [] ok_bits e = e
  Siblings-put_tip payload hash rows (b ∷ bits) (x ∷ sibs) ok_bits (node, readable, more) = (
    put-ne payload hash (from_leaf (b ∷ bits)) rows (from_leaf bits ++ flip b ∷ []) x
        (λ e. flip_ne b ok_bits.0 (last_injective (from_leaf bits) (flip b) b e)) node,
    readable,
    Siblings-put_longer payload hash (from_leaf (b ∷ bits)) rows bits sibs
        (omega (arith, length-from_leaf (b ∷ bits))) more,
  )

  -- What the write of the loop's first node leaves in its row: at the root only the hash is written.
  abbrev pub tip_row : List ℕ → UserState → UserState → UserState
  tip_row [] c r = assign K T [] c.hash r
  tip_row (b ∷ bits) c r = assign K T c.state_data c.hash r

  pub hash-tip_row :
      (bits : List ℕ) (c r : UserState) → IsHash c.hash → (tip_row bits c r).hash ≡ c.hash
  hash-tip_row [] c r h = overwrite-IsHash c.hash r.hash h
  hash-tip_row (b ∷ bits) c r h = overwrite-IsHash c.hash r.hash h

  -- What the loop has made of the rows, from a node whose computed row is `c`.
  pub record Stored (bits : List ℕ) (c : UserState) (rows rows' : Rows) : Type 0 where
    pub tip :
        (r : UserState)
        → Node rows (from_leaf bits) r
        → Node rows' (from_leaf bits) (tip_row bits c r)
    pub off : (q : Str) (r : UserState) → Off q bits → Node rows q r → Node rows' q r
    pub above : (q : Str) → Ancestor q bits → Joined K rows' q
