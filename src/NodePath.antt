-- ===== src/NodePath.antt =====
-- core/utils.go: paths of tree nodes. A path is the text of the bits from the root to the node, one
-- `0` or `1` for each level; the root's path is empty.
pub mod Binary
pub mod Family
pub mod Index
pub mod Spine
use reddit_commander.Prelude.{
  ℕ, zero, suc, ◌+◌, ◌-◌, ◌*◌, ◌/◌, ◌%◌, ◌^◌, ◌≡◌, ◌⊎◌, List, [], ◌∷◌, ◌++◌, ◌||◌, arith, All,
  length, replicate, get_elem?, set, Outcome, bind, or_panic, ok, err, panic, bad_number, leb, ltb,
  ◌==◌, if◌then◌else◌, Option,
}
use reddit_commander.Bytes.{Str}

abbrev pub bit_0 : ℕ
bit_0 = 48

abbrev pub bit_1 : ℕ
bit_1 = 49

abbrev pub IsBit : ℕ → Type 0
IsBit c = (c ≡ 48) ⊎ (c ≡ 49)

abbrev pub IsBits : Str → Type 0
IsBits = All IsBit

-- `s[:len(s)-size]` for the size of the last rune; the empty string stays.
unfoldable pub trim_path_to_parent_path : Str → Str
trim_path_to_parent_path [] = []
trim_path_to_parent_path (c ∷ []) = []
trim_path_to_parent_path (c ∷ d ∷ s) = c ∷ trim_path_to_parent_path (d ∷ s)

unfoldable pub get_parent_path : Str → Str
unfolding trim_path_to_parent_path
get_parent_path path = trim_path_to_parent_path path

-- `dataRune[len(dataRune)-index-1]` panics where the index is negative.
unfoldable pub get_nth_bit_from_right : Str → ℕ → Outcome ℕ
get_nth_bit_from_right path index =
    if ltb index (length path)
    then bind (or_panic (get_elem? path (length path - index - 1)))
        (λ c. ok (if c == bit_0 then 0 else 1))
    else panic

-- `dataRune[i] == 48` panics out of range.
unfoldable pub flip_bit_in_string : Str → ℕ → Outcome Str
flip_bit_in_string s i =
    bind (or_panic (get_elem? s i)) (λ c. ok (set s i (if c == bit_0 then bit_1 else bit_0)))

-- `FlipBitInString(path, len(path)-1)`; on the empty path the index is -1.
unfoldable pub get_other_child : Str → Outcome Str
unfolding flip_bit_in_string
get_other_child [] = panic
get_other_child (c ∷ s) = flip_bit_in_string (c ∷ s) (length s)

-- The loop of `GenCoordinatorPath`: it appends a `0` in each round.
unfoldable pub gen_coordinator_path : ℕ → Str
gen_coordinator_path zero = []
gen_coordinator_path (suc depth) = gen_coordinator_path depth ++ bit_0 ∷ []

abbrev pub uint64 : ℕ
uint64 = 2 ^ 64

-- The digits of `strconv.ParseUint(s, 2, 64)`, with its test for overflow.
unfoldable pub parse_bits : ℕ → Str → Outcome ℕ
parse_bits acc [] = ok acc
parse_bits acc (c ∷ s) =
    let rest = parse_bits (acc * 2 + (c - bit_0)) s in
    if c == bit_0 || c == bit_1
    then (if leb (2 ^ 63) acc then err bad_number else rest)
    else err bad_number

-- `StringToUint`: the empty string is an error.
unfoldable pub string_to_uint : Str → Outcome ℕ
unfolding parse_bits
string_to_uint [] = err bad_number
string_to_uint (c ∷ s) = parse_bits 0 (c ∷ s)

-- The loop of `strconv.FormatUint(a, 2)`, the lowest digit first; a uint64 needs at most 64 rounds.
unfoldable pub format_bits : ℕ → ℕ → Str → Str
format_bits zero a acc = acc
format_bits (suc fuel) a acc =
    let rest = format_bits fuel (a / 2) ((bit_0 + a % 2) ∷ acc) in
    if ltb a 2 then (bit_0 + a) ∷ acc else rest

-- `UintToString`.
unfoldable pub uint_to_string : ℕ → Str
unfolding format_bits
uint_to_string a = format_bits 64 a []

-- `SolidityPathToNodePath`: the count of zeros is a difference of uint64 and wraps around.
unfoldable pub solidity_path_to_node_path : ℕ → ℕ → Outcome Str
solidity_path_to_node_path path depth =
    let digits = uint_to_string path in
    ok (replicate ((depth + uint64 - length digits % uint64) % uint64) bit_0 ++ digits)

-- `pad.Left` of github.com/willf/pad, which is not part of the repository: it puts copies of the
-- one-character pad in front, up to the length asked for.
pub record PadLibrary : Type 0 where
  pub left : Str → ℕ → Str → Str
  pub left_lem : (s : Str) (n c : ℕ) → left s n (c ∷ []) ≡ replicate (n - length s) c ++ s

-- `GetAdjacentNodePath`: the successor is a uint64 and wraps around.
unfoldable pub get_adjacent_node_path : PadLibrary → Str → Outcome Str
get_adjacent_node_path pad path = bind (string_to_uint path) (λ node_path.
    ok (pad.left (uint_to_string ((node_path + 1) % uint64)) (length path) (bit_0 ∷ [])))
