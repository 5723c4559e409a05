-- ===== src/Merkle.antt =====
-- core/utils.go and core/merkleTree.go: the hash of a parent node, and the hashes of the empty trees
-- of each height.
pub mod Defaults
use reddit_commander.Prelude.{
  ℕ, zero, suc, ◌+◌, ◌-◌, ◌≡◌, List, [], ◌∷◌, ◌++◌, length, replicate, get_elem?, set, Outcome,
  bind, ok, panic, or_panic,
}
use reddit_commander.Bytes.{Str, Slice, ByteArray, IsByteArray, to_string, bytes_to_byte_array}

-- The functions of github.com/ethereum/go-ethereum that the trees use.
pub record Crypto : Type 0 where
  -- crypto.Keccak256Hash
  pub keccak256 : Slice → ByteArray
  pub keccak256-IsByteArray : (bz : Slice) → IsByteArray (keccak256 bz)
  -- common.Hash.String
  pub hash_string : ByteArray → Str
  pub hash_string_lem : (h : ByteArray) → hash_string h ≡ to_string h
  -- abi.Arguments.Pack for two values of type bytes32
  pub pack_bytes32 : ByteArray → ByteArray → Outcome Slice
  pub pack_bytes32_lem :
      (l r : ByteArray) → IsByteArray l → IsByteArray r → pack_bytes32 l r ≡ ok (l ++ r)

-- `ZERO_VALUE_LEAF`, the bytes of the constant that `init` parses.
abbrev pub zero_value_leaf : ByteArray
zero_value_leaf =
    0x29 ∷ 0x0d ∷ 0xec ∷ 0xd9 ∷ 0x54 ∷ 0x8b ∷ 0x62 ∷ 0xa8 ∷ 0xd6 ∷ 0x03 ∷ 0x45 ∷ 0xa9 ∷ 0x88 ∷ 0x38
    ∷ 0x6f ∷ 0xc8 ∷ 0x4b ∷ 0xa6 ∷ 0xbc ∷ 0x95 ∷ 0x48 ∷ 0x40 ∷ 0x08 ∷ 0xf6 ∷ 0x36 ∷ 0x2f ∷ 0x93
    ∷ 0x16 ∷ 0x0e ∷ 0xf3 ∷ 0xe5 ∷ 0x63 ∷ []

module _ (K : Crypto) where
  unfoldable pub encode_children : ByteArray → ByteArray → Outcome Slice
  encode_children left right = K.pack_bytes32 left right

  -- `GetParent`.
  unfoldable pub get_parent : ByteArray → ByteArray → Outcome ByteArray
  unfolding encode_children
  get_parent left right =
      bind (encode_children left right) (λ bz. ok (bytes_to_byte_array (K.keccak256 bz)))

  -- The loop of `GenDefaultHashes`, from round `i`.
  gen_hashes : ℕ → ℕ → List ByteArray → Outcome (List ByteArray)
  gen_hashes zero i hashes = ok hashes
  gen_hashes (suc rounds) i hashes = bind (or_panic (get_elem? hashes (i - 1))) λ below.
      bind (get_parent below below) λ parent. gen_hashes rounds (i + 1) (set hashes i parent)

  -- `GenDefaultHashes`: the write to `hashes[0]` panics for a depth of 0.
  unfoldable pub gen_default_hashes : ℕ → Outcome (List ByteArray)
  unfolding gen_hashes
  gen_default_hashes zero = panic
  gen_default_hashes (suc n) =
      gen_hashes n 1 (set (replicate (suc n) (replicate 32 0)) 0 zero_value_leaf)
