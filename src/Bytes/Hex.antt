-- ===== src/Bytes/Hex.antt =====
-- The standard library's encoding/hex, as core/alias.go uses it.
use reddit_commander.Prelude.{
  ℕ, ◌+◌, ◌-◌, ◌*◌, ◌/◌, ◌%◌, ◌<◌, ◌≡◌, refl, List, [], ◌∷◌, arith, All, length, Outcome, ok, err,
  bad_hex, bind, ◌&&◌, leb, ltb, if◌then◌else◌, Option, some, none,
}

-- `hextable[n]`.
pub digit : ℕ → ℕ
digit n = if ltb n 10 then 48 + n else 87 + n

pub from_hex_char : ℕ → Option ℕ
from_hex_char c =
    if leb 48 c && leb c 57
    then some (c - 48)
    else if leb 97 c && leb c 102
    then some (c - 87)
    else if leb 65 c && leb c 70
    then some (c - 55)
    else none

-- `hex.EncodeToString`.
unfoldable pub encode : List ℕ → List ℕ
unfolding digit
encode [] = []
encode (b ∷ bs) = digit (b / 16) ∷ digit (b % 16) ∷ encode bs

pair : Option ℕ → Option ℕ → Outcome (List ℕ) → Outcome (List ℕ)
pair none lo rest = err bad_hex
pair (some h) none rest = err bad_hex
pair (some h) (some l) rest = bind rest (λ bs. ok ((h * 16 + l) ∷ bs))

-- `hex.DecodeString`: an odd length and a character that is no digit are errors.
unfoldable pub decode : List ℕ → Outcome (List ℕ)
unfolding from_hex_char pair
decode [] = ok []
decode (h ∷ []) = err bad_hex
decode (h ∷ l ∷ rest) = pair (from_hex_char h) (from_hex_char l) (decode rest)

from_hex_char-digit : (n : ℕ) → n < 16 → from_hex_char (digit n) ≡ some n
unfolding from_hex_char digit
from_hex_char-digit n h = ground arith

-- What was encoded decodes to itself.
pub decode-encode : (bs : List ℕ) → All (λ x. x < 256) bs → decode (encode bs) ≡ ok bs
unfolding decode encode
decode-encode [] h = refl
decode-encode (b ∷ bs) h =
    ground (arith, from_hex_char-digit (b / 16), from_hex_char-digit (b % 16), decode-encode bs h.1)

pub length-encode : (bs : List ℕ) → length (encode bs) ≡ 2 * length bs
unfolding encode
length-encode [] = refl
length-encode (b ∷ bs) = omega (arith, length-encode bs)
