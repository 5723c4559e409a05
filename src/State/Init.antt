-- ===== src/State/Init.antt =====
-- core/state.go: `InitStateTree`, which fills the table of an empty tree.
use reddit_commander.Prelude.{
  ℕ, zero, suc, ◌^◌, List, [], ◌∷◌, length, Outcome, ok, err, panic, bind, depth_mismatch,
  insert_failed, ◌==◌, if◌then◌else◌,
}
use reddit_commander.Bytes.{Str, to_string, hex_to_byte_array}
use reddit_commander.NodePath.{
  PadLibrary, get_parent_path, gen_coordinator_path, get_adjacent_node_path,
}
use reddit_commander.Merkle.{Crypto, get_parent}
use reddit_commander.Gorm.{Exec, Table, pure, lift, ◌>>=◌, ◌>>◌}
use reddit_commander.State.{
  UserState, update_path, new_state_node, get_states_at_depth, insert_coordinator_accounts,
}

-- Every error of a bulk insertion becomes one error.
abbrev pub or_insert_failed : {S : Type 0} → Exec S (Unit {0}) → Exec S (Unit {0})
or_insert_failed m s =
    let (r, s') = m s in
    elim r [ ok a ↦ (ok a, s') | err e ↦ (err insert_failed, s') | panic ↦ (panic, s') ]

-- Two nodes at a time are joined; of an odd number the last one has no partner and panics.
unfoldable pub next_level : Crypto → List UserState → Outcome (List UserState)
next_level K [] = ok []
next_level K (a ∷ []) = bind (hex_to_byte_array a.hash) (λ left. panic)
next_level K (a ∷ b ∷ accs) = bind (hex_to_byte_array a.hash) λ left.
    bind (hex_to_byte_array b.hash) λ right. bind (get_parent K left right) λ parent_hash.
      bind (next_level K accs)
        λ nodes. ok (new_state_node (get_parent_path a.path) (to_string parent_hash) ∷ nodes)

-- The paths of the leaves after the first, each next to the one before.
unfoldable pub place_leaves : PadLibrary → Str → List UserState → Outcome (List UserState)
place_leaves pad prev_node_path [] = ok []
place_leaves pad prev_node_path (acc ∷ accs) =
    bind (get_adjacent_node_path pad prev_node_path) λ path_to_adjacent_node.
      bind (place_leaves pad path_to_adjacent_node accs)
        λ placed. ok (update_path path_to_adjacent_node acc ∷ placed)

module _ (K : Crypto) (T : Table UserState) where
  -- The rounds of the merkelisation from level `i` up.
  unfoldable pub merkelise : ℕ → Exec T.Store (Unit {0})
  merkelise zero = pure tt
  merkelise (suc i) = do
    accs ← get_states_at_depth K T (suc i)
    next_level_accounts ← lift (next_level K accs)
    or_insert_failed (T.insert next_level_accounts)
    merkelise i

  -- The coordinator's leaf, then the others.
  unfoldable pub init_leaves : PadLibrary → ℕ → List UserState → Exec T.Store (Unit {0})
  init_leaves pad depth [] = λ s. (panic, s)
  init_leaves pad depth (coordinator ∷ others) = do
    insert_coordinator_accounts K T coordinator depth
    insert_records ← lift (place_leaves pad (gen_coordinator_path depth) others)
    or_insert_failed (T.insert insert_records)

  unfoldable pub init_state_tree : PadLibrary → ℕ → List UserState → Exec T.Store (Unit {0})
  unfolding init_leaves merkelise
  init_state_tree pad depth genesis_accounts =
      if 2 ^ depth == length genesis_accounts
      then (do init_leaves pad depth genesis_accounts; merkelise depth)
      else (λ s. (err depth_mismatch, s))
