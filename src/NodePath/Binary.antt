-- ===== src/NodePath/Binary.antt =====
-- core/utils.go: the numbers that paths stand for. A leaf's path is the binary text of its index,
-- padded to the depth of the tree.
use reddit_commander.Prelude.{
  ℕ, zero, suc, ◌+◌, ◌-◌, ◌*◌, ◌/◌, ◌%◌, ◌^◌, ◌≤◌, ◌<◌, ◌≡◌, refl, ap, sym, ◌∙◌, inl, inr,
  Bool-cases, false, [], ◌∷◌, ◌++◌, arith, All-append, append_assoc, length, replicate,
  length-append, ok, ltb, ltb→lt, replicate_snoc,
}
use native.Mathlib.Nat.{pow-suc, pow-zero}
use reddit_commander.Bytes.{Str}
use reddit_commander.NodePath.{
  IsBit, IsBits, uint64, parse_bits, string_to_uint, format_bits, uint_to_string,
  solidity_path_to_node_path,
}

-- The number that a text of bits stands for, read on from `acc`.
abbrev pub value_from : ℕ → Str → ℕ
value_from acc [] = acc
value_from acc (c ∷ s) = value_from (acc * 2 + (c - 48)) s

abbrev pub value : Str → ℕ
value s = value_from 0 s

-- The text of `n` in exactly `w` bits.
abbrev pub binary : ℕ → ℕ → Str
binary zero n = []
binary (suc w) n = binary w (n / 2) ++ (48 + n % 2) ∷ []

pub length-binary : (w n : ℕ) → length (binary w n) ≡ w
length-binary zero n = refl
length-binary (suc w) n =
    omega (arith, length-append (binary w (n / 2)) ((48 + n % 2) ∷ []), length-binary w (n / 2))

IsBit-mod : (n : ℕ) → IsBit (48 + n % 2)
IsBit-mod n = ground arith

pub binary-IsBits : (w n : ℕ) → IsBits (binary w n)
binary-IsBits zero n = tt
binary-IsBits (suc w) n =
    All-append IsBit (binary w (n / 2)) _ (binary-IsBits w (n / 2)) (IsBit-mod n, tt)

pub value_from-snoc :
    (acc : ℕ) (s : Str) (c : ℕ) → value_from acc (s ++ c ∷ []) ≡ value_from acc s * 2 + (c - 48)
value_from-snoc acc [] c = refl
value_from-snoc acc (d ∷ s) c = value_from-snoc (acc * 2 + (d - 48)) s c

pub value-binary : (w n : ℕ) → n < 2 ^ w → value (binary w n) ≡ n
value-binary zero n h = let h' : n < 1 = rw (← pow-zero 2) h in omega arith
value-binary (suc w) n h = omega (
  arith,
  value_from-snoc 0 (binary w (n / 2)) (48 + n % 2),
  value-binary w (n / 2) (omega (arith, pow-suc 2 w)),
)

binary_zero : (w : ℕ) → binary w 0 ≡ replicate w 48
binary_zero zero = refl
binary_zero (suc w) = rw (binary_zero w) (replicate_snoc w 48)

format_bits-append :
    (fuel a : ℕ) (acc : Str) → format_bits fuel a acc ≡ format_bits fuel a [] ++ acc
unfolding format_bits
format_bits-append zero a acc = refl
format_bits-append (suc fuel) a acc = elim (Bool-cases (ltb a 2)) [
  | inl small ↦ rw small refl
  | inr large ↦ rw large (
      format_bits-append fuel (a / 2) ((48 + a % 2) ∷ acc)
      ∙ sym (
          ap (λ xs. xs ++ acc) (format_bits-append fuel (a / 2) ((48 + a % 2) ∷ []))
          ∙ append_assoc (format_bits fuel (a / 2) []) ((48 + a % 2) ∷ []) acc))
]

abbrev pub Padded : ℕ → ℕ → Str → Type 0
Padded w n s = (length s ≤ w) × (1 ≤ length s) × (replicate (w - length s) 48 ++ s ≡ binary w n)

Padded-digit : (w n : ℕ) → n < 2 → Padded (suc w) n ((48 + n) ∷ [])
Padded-digit w n h = (omega arith, omega arith, step)
  where
    half : n / 2 ≡ 0
    half = omega arith

    rest : n % 2 ≡ n
    rest = omega arith

    count : suc w - 1 ≡ w
    count = omega arith

    step : replicate (suc w - 1) 48 ++ (48 + n) ∷ [] ≡ binary (suc w) n
    step = rw (count, half, rest, binary_zero w)

Padded-snoc : (w n : ℕ) (s : Str) → Padded w (n / 2) s → Padded (suc w) n (s ++ (48 + n % 2) ∷ [])
Padded-snoc w n s (short, long, same) =
    (omega (arith, long_by_one), omega (arith, long_by_one), step)
  where
    long_by_one : length (s ++ (48 + n % 2) ∷ []) ≡ length s + 1
    long_by_one = length-append s ((48 + n % 2) ∷ [])

    count : suc w - length (s ++ (48 + n % 2) ∷ []) ≡ w - length s
    count = omega (arith, long_by_one)

    step :
        replicate (suc w - length (s ++ (48 + n % 2) ∷ [])) 48 ++ (s ++ (48 + n % 2) ∷ [])
        ≡ binary (suc w) n
    step = rw count (
        sym (append_assoc (replicate (w - length s) 48) s ((48 + n % 2) ∷ []))
        ∙ ap (λ xs. xs ++ (48 + n % 2) ∷ []) same)

width_pos : (w n : ℕ) → n < 2 ^ suc w → ltb n 2 ≡ false → 0 < w
width_pos zero n h e = absurd (ground (arith, pow-suc 2 0, pow-zero 2))
width_pos (suc w) n h e = omega arith

format_bits-Padded :
    (w fuel n : ℕ) → w ≤ fuel → 0 < w → n < 2 ^ w → Padded w n (format_bits fuel n [])
unfolding format_bits
format_bits-Padded zero fuel n le pos h = absurd (omega arith)
format_bits-Padded (suc w) zero n le pos h = absurd (omega arith)
format_bits-Padded (suc w) (suc fuel) n le pos h = elim (Bool-cases (ltb n 2)) [
  | inl small ↦ rw small (Padded-digit w n (ltb→lt n 2 small))
  | inr large ↦
      rw (large, format_bits-append fuel (n / 2) ((48 + n % 2) ∷ []))
        (Padded-snoc w n (format_bits fuel (n / 2) []) (
          format_bits-Padded w fuel (n / 2) (omega arith) (width_pos w n h large)
            (omega (arith, pow-suc 2 w))))
]

pub uint_to_string-Padded : (w n : ℕ) → w ≤ 64 → 0 < w → n < 2 ^ w → Padded w n (uint_to_string n)
unfolding uint_to_string
uint_to_string-Padded w n le pos h = format_bits-Padded w 64 n le pos h

-- For an index that the depth has room for, `SolidityPathToNodePath` returns the text of the index
-- in exactly that many bits.
pub solidity_path_lem :
    (n depth : ℕ)
    → 0 < depth
    → depth ≤ 64
    → n < 2 ^ depth
    → solidity_path_to_node_path n depth ≡ ok (binary depth n)
unfolding solidity_path_to_node_path
solidity_path_lem n depth pos le h = rw count (ap ok padded.2)
  where
    digits : Str
    digits = uint_to_string n

    padded : Padded depth n digits
    padded = uint_to_string-Padded depth n le pos h

    count : (depth + uint64 - length digits % uint64) % uint64 ≡ depth - length digits
    count = omega (arith, padded.0, padded.1)

parse_bits-value :
    (acc : ℕ) (s : Str)
    → IsBits s
    → value_from acc s < uint64
    → (acc ≤ value_from acc s) × (parse_bits acc s ≡ ok (value_from acc s))
unfolding parse_bits
parse_bits-value acc [] bits h = (omega arith, refl)
parse_bits-value acc (c ∷ s) bits h =
    ground (arith, parse_bits-value (acc * 2 + (c - 48)) s bits.1 h)

pub string_to_uint-value :
    (s : Str) → IsBits s → 0 < length s → value s < uint64 → string_to_uint s ≡ ok (value s)
unfolding string_to_uint
string_to_uint-value [] bits pos h = absurd (omega arith)
string_to_uint-value (c ∷ s) bits pos h = (parse_bits-value 0 (c ∷ s) bits h).1
