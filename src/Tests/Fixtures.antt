-- ===== src/Tests/Fixtures.antt =====
-- A checksum in place of keccak, padding as the library documents it, and a tree of depth one.
use reddit_commander.Prelude.{
  ℕ, ◌+◌, ◌-◌, ◌*◌, ◌%◌, refl, sym, subst, inl, inr, List, [], ◌∷◌, ◌++◌, arith, length, replicate,
  ok, codes,
}
use reddit_commander.Bytes.{Str, Slice, ByteArray, IsByteArray, to_string}
use reddit_commander.NodePath.{PadLibrary}
use reddit_commander.Merkle.{Crypto}
use reddit_commander.Gorm.Memory.{Mem}
use reddit_commander.State.{UserState, blank_state}
use reddit_commander.State.Rows.{Rows, Node, IsHash, to_string-IsHash, join, join-IsHash}
use reddit_commander.State.Spine.{IsTree}
use reddit_commander.State.Update.{IsMerkle}

abbrev checksum : ℕ → List ℕ → ℕ
checksum acc [] = acc
checksum acc (b ∷ bs) = checksum ((acc * 31 + b + 7) % 65521) bs

abbrev pub toy_hash : Slice → ByteArray
toy_hash bz = (checksum 1 bz % 256) ∷ replicate 31 7

pub toy_hash-IsByteArray : (bz : Slice) → IsByteArray (toy_hash bz)
toy_hash-IsByteArray bz = omega arith

abbrev pub toy : Crypto
toy = record {
  keccak256 = toy_hash;
  keccak256-IsByteArray = toy_hash-IsByteArray;
  hash_string = to_string;
  hash_string_lem = λ h. refl;
  pack_bytes32 = λ l r. ok (l ++ r);
  pack_bytes32_lem = λ l r hl hr. refl;
}

abbrev pad_with : Str → ℕ → Str → Str
pad_with s n [] = s
pad_with s n (c ∷ p) = replicate (n - length s) c ++ s

abbrev pub padding : PadLibrary
padding = record { left = pad_with; left_lem = λ s n c. refl }

abbrev pub left_leaf : UserState
left_leaf = record blank_state {
  path = codes "0";
  level = 1;
  node_type = 1;
  status = 1;
  state_data = 1 ∷ 2 ∷ [];
  hash = to_string (toy_hash (1 ∷ 2 ∷ []));
}

abbrev pub right_leaf : UserState
right_leaf = record blank_state {
  path = codes "1";
  level = 1;
  node_type = 1;
  status = 1;
  account_id = 1;
  state_data = 3 ∷ [];
  hash = to_string (toy_hash (3 ∷ []));
}

abbrev pub root_node : UserState
root_node = record blank_state {
  node_type = 2;
  status = 1;
  hash = join toy (to_string (toy_hash (1 ∷ 2 ∷ []))) (to_string (toy_hash (3 ∷ [])));
}

abbrev pub small_rows : Rows
small_rows = left_leaf ∷ right_leaf ∷ root_node ∷ []

abbrev pub small_table : Mem UserState
small_table = record { held = small_rows; script = [] }

abbrev Readable : Str → Type 0
Readable q = (r : UserState) × Node small_rows q r × IsHash r.hash

printed-IsHash : (bz : Slice) → IsHash (to_string (toy_hash bz))
printed-IsHash bz = to_string-IsHash (toy_hash bz) (toy_hash-IsByteArray bz)

pub small-IsTree : IsTree 1 small_rows
small-IsTree [] h le = (root_node, refl, join-IsHash toy left_leaf.hash right_leaf.hash)
small-IsTree (c ∷ []) (inl e, _) le =
    subst (λ k. Readable (k ∷ [])) (sym e) (left_leaf, refl, printed-IsHash (1 ∷ 2 ∷ []))
small-IsTree (c ∷ []) (inr e, _) le =
    subst (λ k. Readable (k ∷ [])) (sym e) (right_leaf, refl, printed-IsHash (3 ∷ []))
small-IsTree (c ∷ d ∷ q) h le = absurd (omega arith)

pub small-IsMerkle : IsMerkle toy 1 small_rows
small-IsMerkle [] h le = record {
  node = root_node;
  left = left_leaf;
  right = right_leaf;
  at = refl;
  at_left = refl;
  at_right = refl;
  joins = refl;
}
small-IsMerkle (c ∷ q) h le = absurd (omega arith)
