-- ===== src/NodePath/Index.antt =====
-- core/utils.go: the conversions between a leaf's index and its path, and the path of the next leaf.
use native.Mathlib.Nat.{pow-suc, pow-le-pow_right}
use reddit_commander.Prelude.{
  ℕ, zero, suc, ◌+◌, ◌-◌, ◌*◌, ◌/◌, ◌%◌, ◌^◌, ◌≤◌, ◌<◌, ◌≡◌, refl, ap, ◌∙◌, inl, inr, [], ◌∷◌, ◌++◌,
  arith, length, length-append, ok, snoc_cases,
}
use reddit_commander.Bytes.{Str}
use reddit_commander.NodePath.{
  IsBit, IsBits, uint64, string_to_uint, uint_to_string, solidity_path_to_node_path, PadLibrary,
  get_adjacent_node_path,
}
use reddit_commander.NodePath.Family.{IsBits-snoc}
use reddit_commander.NodePath.Binary.{
  value, value_from-snoc, binary, length-binary, binary-IsBits, value-binary, solidity_path_lem,
  string_to_uint-value, uint_to_string-Padded,
}

pub uint64_bound : (w n : ℕ) → w ≤ 64 → n < 2 ^ w → n < uint64
uint64_bound w n h lt = omega (arith, pow-le-pow_right {n = 2} (omega arith) {i = w} {j = 64} h)

string_to_uint-binary :
    (n depth : ℕ) → 0 < depth → depth ≤ 64 → n < 2 ^ depth → string_to_uint (binary depth n) ≡ ok n
string_to_uint-binary n depth pos le h =
    string_to_uint-value (binary depth n) (binary-IsBits depth n)
      (omega (arith, length-binary depth n))
      (omega (arith, value-binary depth n h, uint64_bound depth n le h))
    ∙ ap ok (value-binary depth n h)

-- The path made for an index has one bit for each level, and reads back as the index.
pub solidity_path-Roundtrip :
    (n depth : ℕ)
    → 0 < depth
    → depth ≤ 64
    → n < 2 ^ depth
    → (path : Str) × (solidity_path_to_node_path n depth ≡ ok path)
      × IsBits path
      × (length path ≡ depth)
      × (string_to_uint path ≡ ok n)
solidity_path-Roundtrip n depth pos le h = (
  binary depth n,
  solidity_path_lem n depth pos le h,
  binary-IsBits depth n,
  length-binary depth n,
  string_to_uint-binary n depth pos le h,
)

abbrev pub Exact : ℕ → Str → Type 0
Exact w s = (value s < 2 ^ w) × (binary w (value s) ≡ s)

Exact-snoc : (w : ℕ) (s : Str) (c : ℕ) → IsBit c → Exact w s → Exact (suc w) (s ++ c ∷ [])
Exact-snoc w s c bit (small, same) =
    (omega (arith, sum, low, pow-suc 2 w), rw (half, rest) (ap (λ t. t ++ c ∷ []) same))
  where
    sum : value (s ++ c ∷ []) ≡ value s * 2 + (c - 48)
    sum = value_from-snoc 0 s c

    low : (c - 48 ≤ 1) × (48 ≤ c)
    low = omega arith

    half : value (s ++ c ∷ []) / 2 ≡ value s
    half = omega (arith, sum, low.0)

    rest : 48 + value (s ++ c ∷ []) % 2 ≡ c
    rest = omega (arith, sum, low.0, low.1)

-- A text of bits is the fixed-width text of its value.
pub IsBits-Exact : (w : ℕ) (s : Str) → length s ≡ w → IsBits s → Exact w s
IsBits-Exact zero [] e bits = (omega arith, refl)
IsBits-Exact zero (c ∷ s) e bits = absurd (omega arith)
IsBits-Exact (suc w) s e bits = elim (snoc_cases s) [
  | inl empty ↦ absurd (omega (arith, ap length empty))
  | inr (t, c, split) ↦ rw split (
      let parts : IsBits t × IsBit c = IsBits-snoc t c (rw split at bits) in
      Exact-snoc w t c parts.1
        (IsBits-Exact w t (omega (arith, length-append t (c ∷ []), ap length split)) parts.0))
]

-- Every path of one to 64 bits is the path of exactly one index: read as a number and written back
-- at its length, it is unchanged.
pub string_to_uint-Roundtrip :
    (path : Str)
    → IsBits path
    → 0 < length path
    → length path ≤ 64
    → (n : ℕ) × (string_to_uint path ≡ ok n)
      × (n < 2 ^ length path)
      × (solidity_path_to_node_path n (length path) ≡ ok path)
string_to_uint-Roundtrip path bits pos le =
    let exact : Exact (length path) path = IsBits-Exact (length path) path refl bits in
    (
      value path,
      string_to_uint-value path bits pos (uint64_bound (length path) (value path) le exact.0),
      exact.0,
      solidity_path_lem (value path) (length path) pos le exact.0 ∙ ap ok exact.1,
    )

pub get_adjacent_node_path-binary :
    (pad : PadLibrary) (n depth : ℕ)
    → 0 < depth
    → depth ≤ 64
    → n + 1 < 2 ^ depth
    → get_adjacent_node_path pad (binary depth n) ≡ ok (binary depth (n + 1))
unfolding get_adjacent_node_path
get_adjacent_node_path-binary pad n depth pos le h =
    rw
      (
        string_to_uint-binary n depth pos le (omega arith),
        wraps,
        pad.left_lem (uint_to_string (n + 1)) (length (binary depth n)) 48,
        length-binary depth n,
      )
      (ap ok (uint_to_string-Padded depth (n + 1) le pos h).2)
  where
    wraps : (n + 1) % uint64 ≡ n + 1
    wraps = omega (arith, uint64_bound depth (n + 1) le h)

-- The leaf that follows the leaf of index `n` at the same depth is the leaf of index `n + 1`.
pub get_adjacent_node_path-solidity :
    (pad : PadLibrary) (n depth : ℕ) (path : Str)
    → 0 < depth
    → depth ≤ 64
    → n + 1 < 2 ^ depth
    → solidity_path_to_node_path n depth ≡ ok path
    → get_adjacent_node_path pad path ≡ solidity_path_to_node_path (n + 1) depth
get_adjacent_node_path-solidity pad n depth path pos le h made =
    let is_binary : path ≡ binary depth n = cc (solidity_path_lem n depth pos le (omega arith)) in
    rw (is_binary, solidity_path_lem (n + 1) depth pos le h)
      (get_adjacent_node_path-binary pad n depth pos le h)
