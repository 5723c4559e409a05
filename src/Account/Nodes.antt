-- ===== src/Account/Nodes.antt =====
-- core/account.go: the rows of the account tree as nodes of a tree, like those of the state tree.
use reddit_commander.Prelude.{
  ℕ, zero, suc, ◌*◌, ◌≡◌, refl, sym, ap, ◌∙◌, subst, Bool, Bool-cases, inl, inr, List, [], ◌∷◌,
  ◌++◌, map, select, length, arith, ok, ok_injective, bind-eq-ok, get_elem?, some, All,
}
use reddit_commander.Bytes.{Str, hex_to_byte_array}
use reddit_commander.Constants.{status_active}
use reddit_commander.NodePath.{PadLibrary, get_parent_path, get_adjacent_node_path}
use reddit_commander.Merkle.{Crypto, get_parent}
use reddit_commander.State.{UserState, blank_state, has_path, new_state_node}
use reddit_commander.State
use reddit_commander.State.Init
use reddit_commander.State.Rows.{Rows, IsHash, IsHash-reads, join, get_parent-join}
use reddit_commander.State.Levels.{Level}
use reddit_commander.Account.{
  Account, AutoKeys, ids, without_id, new_account_node, update_path, next_level, place_leaves,
}

-- What an account's row shares with a node of the state tree.
abbrev pub as_node : Account → UserState
as_node a = record blank_state {
  path = a.path;
  status = status_active;
  node_type = a.node_type;
  hash = a.hash;
  level = a.level;
}

abbrev pub nodes : List Account → Rows
nodes accs = map as_node accs

pub select-nodes :
    (p : UserState → Bool) (rows : List Account)
    → select p (nodes rows) ≡ nodes (select (λ a. p (as_node a)) rows)
select-nodes p [] = refl
select-nodes p (a ∷ rows) = elim (Bool-cases (p (as_node a))) [
  | inl e ↦ rw e (ap (λ ys. as_node a ∷ ys) (select-nodes p rows))
  | inr e ↦ rw e (select-nodes p rows)
]

pub length-nodes : (rows : List Account) → length (nodes rows) ≡ length rows
length-nodes [] = refl
length-nodes (a ∷ rows) = ap suc (length-nodes rows)

pub nodes-append : (xs ys : List Account) → nodes (xs ++ ys) ≡ nodes xs ++ nodes ys
nodes-append [] ys = refl
nodes-append (a ∷ xs) ys = ap (λ zs. as_node a ∷ zs) (nodes-append xs ys)

nodes-without_id : (rows : List Account) → nodes (map without_id rows) ≡ nodes rows
nodes-without_id [] = refl
nodes-without_id (a ∷ rows) = ap (λ ys. as_node a ∷ ys) (nodes-without_id rows)

-- The numbers that the database gives do not matter.
pub nodes-numbered :
    (keys : AutoKeys) (held : List ℕ) (rows : List Account)
    → nodes (keys.numbered held rows) ≡ nodes rows
nodes-numbered keys held rows =
    sym (nodes-without_id (keys.numbered held rows))
    ∙ ap nodes (keys.numbered_lem held rows)
    ∙ nodes-without_id rows

new_account_node-nodes : (p hash : Str) → as_node (new_account_node p hash) ≡ new_state_node p hash
unfolding new_account_node update_path new_state_node reddit_commander.State.update_path
new_account_node-nodes p hash = refl

-- A level is joined as in the state tree.
pub next_level-nodes :
    (K : Crypto) (w n m : ℕ) (rows : List Account)
    → Level (suc w) (n * 2) (nodes rows)
    → length rows ≡ m * 2
    → (above : List Account) × (next_level K rows ≡ ok above)
      × (State.Init.next_level K (nodes rows) ≡ ok (nodes above))
unfolding next_level State.Init.next_level
next_level-nodes K w n zero [] h len = ([], refl, refl)
next_level-nodes K w n (suc m) [] h len = absurd (omega (arith, len))
next_level-nodes K w n m (a ∷ []) h len = absurd (omega (arith, len))
next_level-nodes K w n zero (a ∷ b ∷ rows) h len = absurd (omega (arith, len))
next_level-nodes K w n (suc m) (a ∷ b ∷ rows) (pa, la, ha, (pb, lb, hb, rest)) len =
    let (above, made, same) =
      next_level-nodes K w (suc n) m rows
        (subst (λ k. Level (suc w) k (nodes rows)) (omega arith) rest) (omega (arith, len)) in
    (
      new_account_node (get_parent_path a.path) (join K a.hash b.hash) ∷ above,
      rw
          (
            IsHash-reads a.hash ha,
            IsHash-reads b.hash hb,
            get_parent-join K a.hash b.hash ha hb,
            made,
          )
          refl,
      rw
          (
            IsHash-reads a.hash ha,
            IsHash-reads b.hash hb,
            get_parent-join K a.hash b.hash ha hb,
            same,
          )
          (ap (λ r. ok (r ∷ nodes above))
            (sym (new_account_node-nodes (get_parent_path a.path) (join K a.hash b.hash)))),
    )

pub update_path-nodes :
    (p : Str) (a : Account) → as_node (update_path p a) ≡ State.update_path p (as_node a)
unfolding update_path State.update_path
update_path-nodes p a = refl

-- Leaves are placed as in the state tree.
pub place_leaves-nodes :
    (pad : PadLibrary) (accs : List Account) (prev : Str) (ys : Rows)
    → State.Init.place_leaves pad prev (nodes accs) ≡ ok ys
    → (placed : List Account) × (place_leaves pad prev accs ≡ ok placed) × (nodes placed ≡ ys)
unfolding place_leaves State.Init.place_leaves
place_leaves-nodes pad [] prev ys e = ([], refl, ok_injective e)
place_leaves-nodes pad (a ∷ accs) prev ys e =
    let (next, found, e1) = bind-eq-ok (get_adjacent_node_path pad prev) _ e in
    let (zs, made, e2) = bind-eq-ok (State.Init.place_leaves pad next (nodes accs)) _ e1 in
    let (placed, runs, same) = place_leaves-nodes pad accs next zs made in
    (
      update_path next a ∷ placed,
      rw (found, runs) refl,
      rw (update_path-nodes next a, same) (ok_injective e2),
    )

pub get_elem?-nodes :
    (accs : List Account) (k : ℕ) (a : Account)
    → get_elem? accs k ≡ some a
    → get_elem? (nodes accs) k ≡ some (as_node a)
get_elem?-nodes [] k a e = cc
get_elem?-nodes (x ∷ accs) zero a e = let same : x ≡ a = cc in ap (λ y. some (as_node y)) same
get_elem?-nodes (x ∷ accs) (suc k) a e = get_elem?-nodes accs k a e

pub All-nodes :
    (accs : List Account) → All (λ a. IsHash a.hash) accs → All (λ r. IsHash r.hash) (nodes accs)
All-nodes [] h = tt
All-nodes (a ∷ accs) h = (h.0, All-nodes accs h.1)

-- Inner nodes have a blank key.
pub next_level-blank :
    (K : Crypto) (accs ys : List Account) → next_level K accs ≡ ok ys → All (λ id. id ≡ 0) (ids ys)
unfolding next_level new_account_node update_path
next_level-blank K [] ys e = subst (λ zs. All (λ id. id ≡ 0) (ids zs)) (ok_injective e) tt
next_level-blank K (a ∷ []) ys e =
    let (left, read, wrong) = bind-eq-ok (hex_to_byte_array a.hash) _ e in cc
next_level-blank K (a ∷ b ∷ accs) ys e =
    let (left, read, e1) = bind-eq-ok (hex_to_byte_array a.hash) _ e in
    let (right, read2, e2) = bind-eq-ok (hex_to_byte_array b.hash) _ e1 in
    let (parent_hash, joined, e3) = bind-eq-ok (get_parent K left right) _ e2 in
    let (above, rest, made) = bind-eq-ok (next_level K accs) _ e3 in
    subst (λ zs. All (λ id. id ≡ 0) (ids zs)) (ok_injective made)
      (refl, next_level-blank K accs above rest)

-- A placed leaf has its key.
pub place_leaves-ids :
    (pad : PadLibrary) (prev : Str) (accs placed : List Account)
    → place_leaves pad prev accs ≡ ok placed
    → ids placed ≡ ids accs
unfolding place_leaves update_path
place_leaves-ids pad prev [] placed e = ap ids (sym (ok_injective e))
place_leaves-ids pad prev (acc ∷ accs) placed e =
    let (next, found, e1) = bind-eq-ok (get_adjacent_node_path pad prev) _ e in
    let (rest, runs, made) = bind-eq-ok (place_leaves pad next accs) _ e1 in
    ap ids (sym (ok_injective made))
    ∙ ap (λ ks. acc.id ∷ ks) (place_leaves-ids pad next accs rest runs)
