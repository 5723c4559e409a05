-- ===== src/Tests/Paths.antt =====
-- The theorems on byte arrays, paths and default hashes, at concrete inputs.
use reddit_commander.Prelude.{
  ℕ, ◌^◌, ◌<◌, ◌≡◌, ◌≢◌, refl, List, inl, inr, arith, length, codes, ok, some, panic, get_elem?,
}
use reddit_commander.Bytes.{Str, ByteArray, to_string, hex_to_byte_array}
use reddit_commander.Bytes.Roundtrip.{hex_to_byte_array-to_string}
use reddit_commander.NodePath.{
  IsBits, get_parent_path, get_other_child, string_to_uint, uint_to_string,
  solidity_path_to_node_path, get_adjacent_node_path, get_nth_bit_from_right, gen_coordinator_path,
}
use reddit_commander.NodePath.Family.{get_other_child-sibling}
use reddit_commander.NodePath.Index.{
  solidity_path-Roundtrip, string_to_uint-Roundtrip, get_adjacent_node_path-solidity,
}
use reddit_commander.Merkle.{zero_value_leaf, gen_default_hashes}
use reddit_commander.Merkle.Defaults.{
  zero_value_leaf-IsByteArray, empty_root, gen_default_hashes_lem,
}
use reddit_commander.Tests.Fixtures.{toy, padding}

path_of_six : solidity_path_to_node_path 6 4 ≡ ok (codes "0110")
unfolding solidity_path_to_node_path uint_to_string
path_of_six = refl

path_of_zero : solidity_path_to_node_path 0 3 ≡ ok (codes "000")
unfolding solidity_path_to_node_path uint_to_string
path_of_zero = refl

next_path : get_adjacent_node_path padding (codes "0111") ≡ ok (codes "1000")
unfolding get_adjacent_node_path string_to_uint uint_to_string
next_path = refl

third_bit : get_nth_bit_from_right (codes "0110") 2 ≡ ok 1
unfolding get_nth_bit_from_right
third_bit = refl

no_bit : get_nth_bit_from_right (codes "0110") 4 ≡ panic
unfolding get_nth_bit_from_right
no_bit = refl

coordinator_path : gen_coordinator_path 4 ≡ codes "0000"
unfolding gen_coordinator_path
coordinator_path = refl

IsBits-0110 : IsBits (codes "0110")
IsBits-0110 = (inl refl, (inr refl, (inr refl, (inl refl, tt))))

hex_to_byte_array-to_string_example :
    hex_to_byte_array (to_string zero_value_leaf) ≡ ok zero_value_leaf
hex_to_byte_array-to_string_example =
    hex_to_byte_array-to_string zero_value_leaf zero_value_leaf-IsByteArray

get_other_child-sibling_example :
    (other : Str) × (get_other_child (codes "0110") ≡ ok other)
    × IsBits other
    × (other ≢ codes "0110")
    × (length other ≡ length (codes "0110"))
    × (get_parent_path other ≡ get_parent_path (codes "0110"))
    × (get_other_child other ≡ ok (codes "0110"))
get_other_child-sibling_example = get_other_child-sibling (codes "0110") IsBits-0110 (omega arith)

solidity_path-Roundtrip_example :
    (path : Str) × (solidity_path_to_node_path 6 4 ≡ ok path)
    × IsBits path
    × (length path ≡ 4)
    × (string_to_uint path ≡ ok 6)
solidity_path-Roundtrip_example =
    solidity_path-Roundtrip 6 4 (omega arith) (omega arith) (omega arith)

string_to_uint-Roundtrip_example :
    (n : ℕ) × (string_to_uint (codes "0110") ≡ ok n)
    × (n < 2 ^ length (codes "0110"))
    × (solidity_path_to_node_path n (length (codes "0110")) ≡ ok (codes "0110"))
string_to_uint-Roundtrip_example =
    string_to_uint-Roundtrip (codes "0110") IsBits-0110 (omega arith) (omega arith)

get_adjacent_node_path-solidity_example :
    get_adjacent_node_path padding (codes "0110") ≡ solidity_path_to_node_path 7 4
get_adjacent_node_path-solidity_example =
    get_adjacent_node_path-solidity padding 6 4 (codes "0110") (omega arith) (omega arith)
      (omega arith) path_of_six

gen_default_hashes_lem_example :
    (hashes : List ByteArray) × (gen_default_hashes toy 3 ≡ ok hashes)
    × (length hashes ≡ 3)
    × ((j : ℕ) → j < 3 → get_elem? hashes j ≡ some (empty_root toy j))
gen_default_hashes_lem_example = gen_default_hashes_lem toy 3 (omega arith)
