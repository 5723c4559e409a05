-- ===== src/Bytes/Roundtrip.antt =====
-- core/alias.go: the text of a byte array and its reading.
use reddit_commander.Prelude.{
  ℕ, zero, suc, ◌≤◌, ◌≡◌, refl, ap, List, [], ◌∷◌, append-nil, arith, length, take, ok,
}
use reddit_commander.Bytes.{
  ByteArray, IsByteArray, bytes_to_byte_array, to_string, hex_to_byte_array,
}
use reddit_commander.Bytes.Hex.{decode-encode}

take_all : (n : ℕ) (bs : List ℕ) → length bs ≤ n → take n bs ≡ bs
take_all zero [] h = refl
take_all zero (b ∷ bs) h = absurd (omega arith)
take_all (suc n) [] h = refl
take_all (suc n) (b ∷ bs) h = ap (λ xs. b ∷ xs) (take_all n bs (omega arith))

pub bytes_to_byte_array_self : (b : ByteArray) → length b ≡ 32 → bytes_to_byte_array b ≡ b
unfolding bytes_to_byte_array
bytes_to_byte_array_self b h = rw (take_all 32 b (omega arith), h) (append-nil b)

-- The printed form of a 32-byte array parses, with no error and no panic, to that array.
pub hex_to_byte_array-to_string :
    (b : ByteArray) → IsByteArray b → hex_to_byte_array (to_string b) ≡ ok b
unfolding hex_to_byte_array to_string
hex_to_byte_array-to_string b v =
    rw (decode-encode b v.bytes, hex_to_byte_array) (ap ok (bytes_to_byte_array_self b v.width))
