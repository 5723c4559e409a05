-- ===== src/State/Leaves.antt =====
-- core/state.go: the leaves that `InitStateTree` puts in the table.
use reddit_commander.Prelude.{
  ℕ, zero, suc, ◌+◌, ◌^◌, ◌≤◌, ◌<◌, ◌≡◌, refl, ap, ◌∙◌, subst, some, [], ◌∷◌, ◌++◌, All, length,
  get_elem?, get_elem?-some, arith, ok,
}
use reddit_commander.NodePath.{PadLibrary, gen_coordinator_path}
use reddit_commander.NodePath.Binary.{binary, length-binary, value}
use reddit_commander.NodePath.Index.{IsBits-Exact, get_adjacent_node_path-binary}
use reddit_commander.Merkle.{Crypto}
use reddit_commander.State.{UserState, update_path}
use reddit_commander.State.Rows.{Rows, Node, IsHash}
use reddit_commander.State.Init.{place_leaves}
use reddit_commander.State.Levels.{Level, Level-select, Level-select_self, Level-Node}
use reddit_commander.State.Build.{Built, Level-no_path, Level-hash}

pub gen_coordinator_path-binary : (d : ℕ) → gen_coordinator_path d ≡ binary d 0
unfolding gen_coordinator_path
gen_coordinator_path-binary zero = refl
gen_coordinator_path-binary (suc d) = ap (λ p. p ++ 48 ∷ []) (gen_coordinator_path-binary d)

placed_first-Level :
    (d n : ℕ) (acc : UserState) (placed : Rows)
    → IsHash acc.hash
    → Level d (suc n) placed
    → Level d n (update_path (binary d n) acc ∷ placed)
unfolding update_path
placed_first-Level d n acc placed hash level = (refl, length-binary d n, hash, level)

placed_first-get_elem? :
    (d n : ℕ) (acc : UserState) (accs placed : Rows)
    → ((k : ℕ) (a : UserState)
        → get_elem? accs k ≡ some a
        → get_elem? placed k ≡ some (update_path (binary d (n + 1 + 1 + k)) a))
    → (k : ℕ) (a : UserState) → get_elem? (acc ∷ accs) k ≡ some a
    → get_elem? (update_path (binary d (n + 1)) acc ∷ placed) k
      ≡ some (update_path (binary d (n + 1 + k)) a)
placed_first-get_elem? d n acc accs placed each zero a e =
    let same : acc ≡ a = cc in
    let here : n + 1 ≡ n + 1 + 0 = omega arith in
    ap some
      (ap (λ y. update_path (binary d (n + 1)) y) same ∙ ap (λ j. update_path (binary d j) a) here)
placed_first-get_elem? d n acc accs placed each (suc k) a e =
    let there : n + 1 + 1 + k ≡ n + 1 + suc k = omega arith in
    each k a e ∙ ap (λ j. some (update_path (binary d j) a)) there

-- The leaves after the one of index `n` get the next indices.
pub place_leaves-Level :
    (pad : PadLibrary) (d n : ℕ) (accs : Rows)
    → 0 < d
    → d ≤ 64
    → n + length accs < 2 ^ d
    → All (λ acc. IsHash acc.hash) accs
    → (placed : Rows) × (place_leaves pad (binary d n) accs ≡ ok placed)
      × Level d (n + 1) placed
      × (length placed ≡ length accs)
      × ((k : ℕ) (a : UserState)
          → get_elem? accs k ≡ some a
          → get_elem? placed k ≡ some (update_path (binary d (n + 1 + k)) a))
unfolding place_leaves
place_leaves-Level pad d n [] pos le room hashes = ([], refl, tt, refl, λ k a e. cc)
place_leaves-Level pad d n (acc ∷ accs) pos le room hashes =
    let (placed, made, level, count, each) =
      place_leaves-Level pad d (n + 1) accs pos le (omega (arith, room)) hashes.1 in
    (
      update_path (binary d (n + 1)) acc ∷ placed,
      rw (get_adjacent_node_path-binary pad n d pos le (omega (arith, room)), made) refl,
      placed_first-Level d (n + 1) acc placed hashes.0
          (subst (λ k. Level d k placed) (omega arith) level),
      ap suc count,
      placed_first-get_elem? d n acc accs placed each,
    )

-- The leaves alone are the lowest level.
pub Built-leaves :
    (K : Crypto) (d : ℕ) (leaves : Rows)
    → Level d 0 leaves
    → length leaves ≡ 2 ^ d
    → Built K d d leaves leaves
Built-leaves K d leaves level full = record {
  level = level;
  full = full;
  found = Level-select_self d 0 leaves level;
  bare = λ k lt. Level-select d k 0 leaves level (λ e. omega (arith, e, lt));
  nodes = node;
  unborn = λ q lt. Level-no_path d 0 leaves q level (λ e. omega (arith, e, lt));
  tree = λ q bits le short.
      let (small, same) = IsBits-Exact d q (omega (arith, le, short)) bits in
      let (r, e) = get_elem?-some leaves (value q) (omega (arith, small, full)) in
      (
        r,
        subst (λ p. Node leaves p r) same (node (value q) r e),
        Level-hash d 0 (value q) leaves r level e,
      );
  merkle = λ q bits le short. absurd (omega (arith, le, short));
}
  where
    node : (k : ℕ) (r : UserState) → get_elem? leaves k ≡ some r → Node leaves (binary d k) r
    node k r e =
        subst (λ j. Node leaves (binary d j) r) (omega arith)
          (Level-Node d 0 k leaves r level (omega (arith, full)) e)
