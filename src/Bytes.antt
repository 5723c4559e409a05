-- ===== src/Bytes.antt =====
-- core/alias.go: 32-byte arrays and their hexadecimal text. A byte is a number below 256, a Go
-- string is the list of its code points.
pub mod Hex
pub mod Roundtrip
use Hex.{encode, decode}
use reddit_commander.Prelude.{
  ℕ, ◌+◌, ◌-◌, ◌<◌, ◌≡◌, refl, List, [], ◌∷◌, ◌++◌, arith, All, length, take, replicate, Outcome,
  bind, ok, err, panic, Error, bad_hex, ap, zero, suc, ◌≤◌, append-nil,
}

-- Go's `string`.
abbrev pub Str : Type 0
Str = List ℕ

-- Go's `[]byte`.
abbrev pub Slice : Type 0
Slice = List ℕ

-- `type ByteArray [32]byte`.
abbrev pub ByteArray : Type 0
ByteArray = List ℕ

pub record IsByteArray (b : ByteArray) : Type 0 where
  pub width : length b ≡ 32
  pub bytes : All (λ x. x < 256) b

-- `copy(temp[:], bz)` into 32 zero bytes.
unfoldable pub bytes_to_byte_array : Slice → ByteArray
bytes_to_byte_array bz = take 32 bz ++ replicate (32 - length bz) 0

-- `ByteArray.String`.
unfoldable pub to_string : ByteArray → Str
to_string b = b'0' ∷ b'x' ∷ encode b

-- `hex.DecodeString(a[2:])`: the slice expression panics on a string of less than two bytes.
unfoldable pub hex_to_byte_array : Str → Outcome ByteArray
hex_to_byte_array [] = panic
hex_to_byte_array (a ∷ []) = panic
hex_to_byte_array (a ∷ b ∷ digits) = bind (decode digits) (λ bz. ok (bytes_to_byte_array bz))
