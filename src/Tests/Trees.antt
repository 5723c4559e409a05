-- ===== src/Tests/Trees.antt =====
-- The theorems on the state tree, on a tree of depth one.
use reddit_commander.Prelude.{
  ℕ, suc, ◌≡◌, refl, List, [], ◌∷◌, inl, arith, codes, ok, some, get_elem?,
}
use reddit_commander.NodePath.Binary.{binary}
use reddit_commander.State.Rows.{Node, to_string-IsHash}
use reddit_commander.State.Spine.{IsTree}
use reddit_commander.State.Init.{init_state_tree}
use reddit_commander.State.Start.{first_leaf, init_state_tree-IsTree}
use reddit_commander.NodePath.Spine.{from_leaf}
use reddit_commander.Gorm.Memory.{Mem, reliable, reliable-IsQuiet}
use reddit_commander.State.{UserState, update_path, update_state, get_siblings}
use reddit_commander.State.Update.{IsMerkle, Updated, update_state-Updated}
use reddit_commander.State.Climb.{climb, get_siblings-climb}
use reddit_commander.Tests.Fixtures.{
  toy, toy_hash, toy_hash-IsByteArray, padding, left_leaf, right_leaf, root_node, small_rows,
  small_table, small-IsTree, small-IsMerkle,
}

abbrev changed_leaf : UserState
changed_leaf = record left_leaf { state_data = 9 ∷ 9 ∷ 9 ∷ [] }

update_state-Updated_example :
    (s' : Mem UserState) × (update_state toy (reliable UserState) changed_leaf small_table
      ≡ (ok tt, s'))
    × Updated toy (reliable UserState) 1 changed_leaf small_rows s'.held
update_state-Updated_example =
    update_state-Updated toy (reliable UserState) (reliable-IsQuiet UserState) 1 changed_leaf
      small_table (omega arith) (inl refl, tt) refl small-IsTree small-IsMerkle

get_siblings-climb_example :
    (bits : List ℕ) × (sibs : List UserState) × (s' : Mem UserState) × (from_leaf bits ≡ codes "0")
    × (get_siblings toy (reliable UserState) (codes "0") small_table ≡ (ok sibs, s'))
    × (s'.held ≡ small_rows)
    × (climb toy bits left_leaf.hash sibs ≡ root_node.hash)
get_siblings-climb_example =
    get_siblings-climb toy (reliable UserState) 1 (codes "0") small_table left_leaf root_node
      (reliable-IsQuiet UserState) (inl refl, tt) (omega arith) small-IsTree small-IsMerkle refl
      refl

abbrev no_rows : Mem UserState
no_rows = record { held = []; script = [] }

init_state_tree-IsTree_example :
    (s' : Mem UserState) × (init_state_tree toy
        (reliable UserState)
        padding
        1
        (left_leaf ∷ right_leaf ∷ [])
        no_rows
      ≡ (ok tt, s'))
    × IsTree 1 s'.held
    × IsMerkle toy 1 s'.held
    × Node s'.held (binary 1 0) (first_leaf toy 1 left_leaf)
    × ((k : ℕ) (a : UserState)
        → get_elem? (right_leaf ∷ []) k ≡ some a
        → Node s'.held (binary 1 (suc k)) (update_path (binary 1 (suc k)) a))
init_state_tree-IsTree_example =
    init_state_tree-IsTree toy (reliable UserState) (reliable-IsQuiet UserState) padding 1 left_leaf
      (right_leaf ∷ []) no_rows (omega arith) (omega arith) refl
      (to_string-IsHash (toy_hash (3 ∷ [])) (toy_hash-IsByteArray (3 ∷ [])), tt) refl
