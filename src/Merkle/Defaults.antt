-- ===== src/Merkle/Defaults.antt =====
-- core/utils.go and core/merkleTree.go: what the default hashes are.
use reddit_commander.Prelude.{
  ℕ, zero, suc, ◌+◌, ◌-◌, ◌<◌, ◌≡◌, refl, ap, ◌∙◌, List, ◌∷◌, ◌++◌, length, replicate, get_elem?,
  set, ok, some, arith, length-replicate, length-set, get_elem?-set_self, get_elem?-set_ne, codes,
  inl, inr, Bool-cases, ◌==◌, ==_iff,
}
use reddit_commander.Bytes.{ByteArray, IsByteArray, bytes_to_byte_array, hex_to_byte_array}
use reddit_commander.Bytes.Roundtrip.{bytes_to_byte_array_self}
use reddit_commander.Bytes.Hex.{decode}
use reddit_commander.Merkle.{Crypto, zero_value_leaf, get_parent, gen_hashes, gen_default_hashes}

-- `init` of core/merkleTree.go parses this constant.
zero_value_leaf_parses :
    hex_to_byte_array (codes "0x290decd9548b62a8d60345a988386fc84ba6bc95484008f6362f93160ef3e563")
    ≡ ok zero_value_leaf
unfolding hex_to_byte_array decode bytes_to_byte_array
zero_value_leaf_parses = refl

pub zero_value_leaf-IsByteArray : IsByteArray zero_value_leaf
zero_value_leaf-IsByteArray = omega arith

module _ (K : Crypto) where
  pub get_parent_lem :
      (l r : ByteArray)
      → IsByteArray l
      → IsByteArray r
      → get_parent K l r ≡ ok (K.keccak256 (l ++ r))
  unfolding get_parent
  get_parent_lem l r hl hr =
      rw (K.pack_bytes32_lem l r hl hr)
        (ap ok (bytes_to_byte_array_self _ (K.keccak256-IsByteArray (l ++ r)).width))

  -- The root of a full tree of height `i` in which every leaf is the zero leaf.
  abbrev pub empty_root : ℕ → ByteArray
  empty_root zero = zero_value_leaf
  empty_root (suc i) = K.keccak256 (empty_root i ++ empty_root i)

  pub empty_root-IsByteArray : (i : ℕ) → IsByteArray (empty_root i)
  empty_root-IsByteArray zero = zero_value_leaf-IsByteArray
  empty_root-IsByteArray (suc i) = K.keccak256-IsByteArray (empty_root i ++ empty_root i)

  -- The first `i` hashes are in place.
  abbrev Filled : ℕ → List ByteArray → Type 0
  Filled i hashes = (j : ℕ) → j < i → get_elem? hashes j ≡ some (empty_root j)

  Filled-set :
      (i : ℕ) (hashes : List ByteArray)
      → i < length hashes
      → Filled i hashes
      → Filled (i + 1) (set hashes i (empty_root i))
  Filled-set i hashes h filled j lt = elim (Bool-cases (i == j)) [
    | inl same ↦
        let e : i ≡ j = (==_iff i j).0 same in
        rw (← e) (get_elem?-set_self hashes i (empty_root i) h)
    | inr other ↦
        get_elem?-set_ne hashes i j (empty_root i) (ground arith) ∙ filled j (ground arith)
  ]

  gen_hashes-round :
      (rounds i : ℕ) (hashes : List ByteArray)
      → get_elem? hashes i ≡ some (empty_root i)
      → gen_hashes K (suc rounds) (suc i) hashes
        ≡ gen_hashes K rounds (suc (suc i)) (set hashes (suc i) (empty_root (suc i)))
  unfolding gen_hashes
  gen_hashes-round rounds i hashes found =
      let below : suc i - 1 ≡ i = omega arith in
      let counter : suc i + 1 ≡ suc (suc i) = omega arith in
      let root : IsByteArray (empty_root i) = empty_root-IsByteArray i in
      rw (below, found, get_parent_lem (empty_root i) (empty_root i) root root, counter)

  first : (n : ℕ) (zeros : ByteArray) → Filled 1 (zero_value_leaf ∷ replicate n zeros)
  first n zeros zero lt = refl
  first n zeros (suc j) lt = absurd (omega arith)

  -- The loop from round `i + 1` returns a list in which all is in place.
  abbrev Completes : ℕ → ℕ → List ByteArray → Type 0
  Completes rounds i hashes =
      (out : List ByteArray) × (gen_hashes K rounds (suc i) hashes ≡ ok out)
      × (length out ≡ suc i + rounds)
      × Filled (suc i + rounds) out

  abbrev next_hashes : ℕ → List ByteArray → List ByteArray
  next_hashes i hashes = set hashes (suc i) (empty_root (suc i))

  Filled-next :
      (i : ℕ) (hashes : List ByteArray)
      → suc i < length hashes
      → Filled (suc i) hashes
      → Filled (suc (suc i)) (next_hashes i hashes)
  Filled-next i hashes h filled j lt = Filled-set (suc i) hashes h filled j (omega arith)

  Completes-round :
      (rounds i : ℕ) (hashes : List ByteArray)
      → Filled (suc i) hashes
      → Completes rounds (suc i) (next_hashes i hashes)
      → Completes (suc rounds) i hashes
  Completes-round rounds i hashes filled (out, runs, len, filled') = (
    out,
    gen_hashes-round rounds i hashes (filled i (omega arith)) ∙ runs,
    omega (arith, len),
    λ j lt. filled' j (omega arith),
  )

  gen_hashes-Completes :
      (rounds i : ℕ) (hashes : List ByteArray)
      → length hashes ≡ suc i + rounds
      → Filled (suc i) hashes
      → Completes rounds i hashes
  unfolding gen_hashes
  gen_hashes-Completes zero i hashes len filled =
      (hashes, refl, len, λ j lt. filled j (omega arith))
  gen_hashes-Completes (suc rounds) i hashes len filled = Completes-round rounds i hashes filled (
      gen_hashes-Completes rounds (suc i) (next_hashes i hashes)
        (omega (arith, len, length-set hashes (suc i) (empty_root (suc i))))
        (Filled-next i hashes (omega arith) filled))

  -- For a positive depth, `GenDefaultHashes` returns, in each place `j`, the root of the full tree of
  -- height `j` over zero leaves.
  pub gen_default_hashes_lem :
      (depth : ℕ)
      → 0 < depth
      → (hashes : List ByteArray) × (gen_default_hashes K depth ≡ ok hashes)
        × (length hashes ≡ depth)
        × ((j : ℕ) → j < depth → get_elem? hashes j ≡ some (empty_root j))
  unfolding gen_default_hashes
  gen_default_hashes_lem zero pos = absurd (omega arith)
  gen_default_hashes_lem (suc n) pos =
      let zeros : ByteArray = replicate 32 0 in
      let hashes : List ByteArray = zero_value_leaf ∷ replicate n zeros in
      let (out, runs, len, filled) =
        gen_hashes-Completes n 0 hashes (omega (arith, length-replicate n zeros))
          (λ j lt. first n zeros j lt) in
      (out, runs, omega (arith, len), λ j lt. filled j (omega arith))
