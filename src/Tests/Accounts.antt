-- ===== src/Tests/Accounts.antt =====
-- The account tree of depth one, made in an empty table, and the siblings of its first leaf.
use reddit_commander.Prelude.{ℕ, ◌≡◌, refl, inl, arith, List, [], ◌∷◌, ok, codes}
use reddit_commander.Bytes.{to_string}
use reddit_commander.NodePath.{gen_coordinator_path}
use reddit_commander.NodePath.Spine.{from_leaf}
use reddit_commander.Merkle.{zero_value_leaf}
use reddit_commander.Merkle.Defaults.{zero_value_leaf-IsByteArray}
use reddit_commander.Gorm.Memory.{Mem, reliable, reliable-IsQuiet}
use reddit_commander.State.Rows.{Node, to_string-IsHash}
use reddit_commander.State.Spine.{IsTree}
use reddit_commander.State.Update.{IsMerkle}
use reddit_commander.State.Put.{Joined}
use reddit_commander.State.Climb.{climb}
use reddit_commander.Account.{
  Account, new_empty_account, update_path, populate_hash, get_account_siblings,
}
use reddit_commander.Account.Nodes.{as_node, nodes}
use reddit_commander.Account.Start.{init_account_tree-IsTree}
use reddit_commander.Account.Climb.{get_account_siblings-climb}
use reddit_commander.Tests.Keys.{numbering}
use reddit_commander.Tests.Fixtures.{toy, padding}
use reddit_commander.Tests.Stores.{stored}

abbrev empty_account : Account
empty_account = record new_empty_account { hash = to_string zero_value_leaf }

abbrev first_account : Account
first_account = record empty_account { path = codes "0"; level = 1 }

-- The same tree, for the next example.
made_tree :
    (s : Mem Account) × IsTree 1 (nodes s.held)
    × IsMerkle toy 1 (nodes s.held)
    × Node (nodes s.held) (codes "0") (as_node first_account)
unfolding populate_hash update_path gen_coordinator_path
made_tree =
    let (s, runs, tree, merkle, first, rest) =
      init_account_tree-IsTree toy (λ bz. ok bz) (reliable Account) (reliable-IsQuiet Account)
        numbering padding 1 empty_account first_account (empty_account ∷ []) (stored [])
        (omega arith) (omega arith) refl
        (to_string-IsHash zero_value_leaf zero_value_leaf-IsByteArray, tt) refl refl refl in
    (s, tree, merkle, first)

abbrev top : Joined toy (nodes made_tree.0.held) []
top = made_tree.2 [] tt (omega arith)

get_account_siblings-climb_example :
    (bits : List ℕ) × (sibs : List Account) × (s' : Mem Account) × (from_leaf bits ≡ codes "0")
    × (get_account_siblings toy (λ bz. ok bz) (reliable Account) (codes "0") made_tree.0
        ≡ (ok sibs, s'))
    × (s'.held ≡ made_tree.0.held)
    × (climb toy bits (to_string zero_value_leaf) (nodes sibs) ≡ top.node.hash)
get_account_siblings-climb_example =
    get_account_siblings-climb toy (λ bz. ok bz) (reliable Account) (reliable-IsQuiet Account) 1
      (codes "0") made_tree.0 (as_node first_account) top.node (inl refl, tt) (omega arith)
      made_tree.1 made_tree.2 made_tree.3 top.at

-- Where the second account has the id 1, its row is refused.
abbrev member_one : Account
member_one = record empty_account { id = 1 }
