-- ===== src/State/Climb.antt =====
-- core/state.go: the siblings that `GetSiblings` returns, as a Merkle proof.
use reddit_commander.Prelude.{
  ℕ, ◌≤◌, ◌≡◌, ap, sym, subst, ◌∙◌, inl, inr, List, [], ◌∷◌, ◌++◌, length, arith, ok,
}
use reddit_commander.Bytes.{Str}
use reddit_commander.NodePath.{IsBit, IsBits}
use reddit_commander.NodePath.Spine.{from_leaf, from_leaf_onto, length-from_leaf, from_leaf-IsBits}
use reddit_commander.NodePath.Family.{flip}
use reddit_commander.Merkle.{Crypto}
use reddit_commander.Gorm.{Table, IsQuiet}
use reddit_commander.State.{UserState, get_siblings}
use reddit_commander.State.Rows.{Rows, Node, join, Node-unique}
use reddit_commander.State.Spine.{Siblings, IsTree, joined, get_siblings_lem}
use reddit_commander.State.Put.{Joined}
use reddit_commander.State.Update.{IsMerkle}
use mathlib.Core.Path.{ap₂}

-- The root's hash column as a Merkle proof computes it: from a leaf's, with the siblings' from the
-- leaf on.
abbrev pub climb : Crypto → List ℕ → Str → List UserState → Str
climb K [] hash sibs = hash
climb K (b ∷ bits) hash [] = hash
climb K (b ∷ bits) hash (x ∷ sibs) = climb K bits (joined K b hash x.hash) sibs

Joined-step :
    (K : Crypto) (rows : Rows) (b : ℕ) (p : Str) (l x : UserState) (j : Joined K rows p)
    → IsBit b
    → Node rows (p ++ b ∷ []) l
    → Node rows (p ++ flip b ∷ []) x
    → j.node.hash ≡ joined K b l.hash x.hash
Joined-step K rows b p l x j (inl e) at_l at_x =
    let left : l ≡ j.left =
      Node-unique rows (p ++ 48 ∷ []) l j.left (subst (λ k. Node rows (p ++ k ∷ []) l) e at_l)
        j.at_left in
    let right : x ≡ j.right =
      Node-unique rows (p ++ 49 ∷ []) x j.right (subst (λ k. Node rows (p ++ flip k ∷ []) x) e at_x)
        j.at_right in
    subst (λ k. j.node.hash ≡ joined K k l.hash x.hash) (sym e)
      (j.joins ∙ ap₂ (λ (a c : UserState). join K a.hash c.hash) (sym left) (sym right))
Joined-step K rows b p l x j (inr e) at_l at_x =
    let right : l ≡ j.right =
      Node-unique rows (p ++ 49 ∷ []) l j.right (subst (λ k. Node rows (p ++ k ∷ []) l) e at_l)
        j.at_right in
    let left : x ≡ j.left =
      Node-unique rows (p ++ 48 ∷ []) x j.left (subst (λ k. Node rows (p ++ flip k ∷ []) x) e at_x)
        j.at_left in
    subst (λ k. j.node.hash ≡ joined K k l.hash x.hash) (sym e)
      (j.joins ∙ ap₂ (λ (a c : UserState). join K a.hash c.hash) (sym left) (sym right))

pub climb-Siblings :
    (K : Crypto) (d : ℕ) (bits : List ℕ) (rows : Rows) (sibs : List UserState) (n root : UserState)
    → IsBits bits
    → length bits ≤ d
    → IsMerkle K d rows
    → Siblings rows bits sibs
    → Node rows (from_leaf bits) n
    → Node rows [] root
    → climb K bits n.hash sibs ≡ root.hash
climb-Siblings K d [] rows sibs n root ok_bits le merkle e at_n at_root =
    ap (λ r. r.hash) (Node-unique rows [] n root at_n at_root)
climb-Siblings K d (b ∷ bits) rows [] n root ok_bits le merkle e at_n at_root = absurd e
climb-Siblings K d (b ∷ bits) rows (x ∷ sibs) n root ok_bits le merkle (sib, hx, more) at_n
      at_root =
    let j : Joined K rows (from_leaf bits) =
      merkle (from_leaf bits) (from_leaf-IsBits bits ok_bits.1)
        (omega (arith, length-from_leaf bits)) in
    ap (λ h. climb K bits h sibs)
      (sym (Joined-step K rows b (from_leaf bits) n x j ok_bits.0 at_n sib))
    ∙ climb-Siblings K d bits rows sibs j.node root ok_bits.1 (omega arith) merkle more j.at at_root

-- On a full tree whose inner nodes join their children, and where no statement fails, `GetSiblings` of
-- a node, inner or leaf, returns a Merkle proof: the node's hash and the siblings' compute the root's
-- hash. It changes no row.
pub get_siblings-climb :
    (K : Crypto) (T : Table UserState) (d : ℕ) (path : Str) (s : T.Store) (node root : UserState)
    → IsQuiet T
    → IsBits path
    → length path ≤ d
    → IsTree d (T.rows s)
    → IsMerkle K d (T.rows s)
    → Node (T.rows s) path node
    → Node (T.rows s) [] root
    → (bits : List ℕ) × (sibs : List UserState) × (s' : T.Store) × (from_leaf bits ≡ path)
      × (get_siblings K T path s ≡ (ok sibs, s'))
      × (T.rows s' ≡ T.rows s)
      × (climb K bits node.hash sibs ≡ root.hash)
get_siblings-climb K T d path s node root quiet ok_bits len tree merkle at_node at_root =
    let (bits, h, same) = from_leaf_onto path ok_bits in
    let short : length bits ≤ d = omega (arith, ap length same, length-from_leaf bits) in
    let (sibs, s', reads, rows', collected) =
      get_siblings_lem K T quiet d bits path s tree h short same in
    (
      bits,
      sibs,
      s',
      same,
      reads,
      rows',
      climb-Siblings K d bits (T.rows s) sibs node root h short merkle collected
          (subst (λ p. Node (T.rows s) p node) (sym same) at_node) at_root,
    )
