-- ===== src/State/Rows.antt =====
-- core/state.go: the nodes of the tree as rows of its table, and what a write of one node changes.
use reddit_commander.Prelude.{
  ◌≡◌, ◌≢◌, ap, sym, ◌∙◌, true, false, Bool-cases, inl, inr, List, [], ◌∷◌, ◌++◌, map, select, ok,
  err, panic, list_eq, list_eq→eq, list_eq_ne,
}
use reddit_commander.Bytes.{Str, ByteArray, IsByteArray, to_string, hex_to_byte_array}
use reddit_commander.Bytes.Roundtrip.{hex_to_byte_array-to_string}
use reddit_commander.Merkle.{Crypto, get_parent}
use reddit_commander.Merkle.Defaults.{get_parent_lem}
use reddit_commander.Gorm.{map_where}
use reddit_commander.Gorm.Select.{select-map_where_self, select-map_where_ne}
use reddit_commander.State.{UserState, has_path, hash_to_byte_array}

abbrev pub Rows : Type 0
Rows = List UserState

-- Exactly one row has the path, and it is this one.
abbrev pub Node : Rows → Str → UserState → Type 0
Node rows p r = select (has_path p) rows ≡ r ∷ []

pub Node-path : (rows : Rows) (p : Str) (r : UserState) → Node rows p r → r.path ≡ p
Node-path [] p r h = cc
Node-path (x ∷ rows) p r h = elim (Bool-cases (has_path p x)) [
  | inl e ↦ let first : x ≡ r = cc (rw e at h) in rw (← first) (list_eq→eq x.path p e)
  | inr e ↦ Node-path rows p r (rw e at h)
]

pub Node-unique : (rows : Rows) (p : Str) (r t : UserState) → Node rows p r → Node rows p t → r ≡ t
Node-unique rows p r t h k = cc

has_path_ne : (p q : Str) (x : UserState) → q ≢ p → has_path p x ≡ true → has_path q x ≡ false
has_path_ne p q x ne e = list_eq_ne x.path q (λ same. ne (sym same ∙ list_eq→eq x.path p e))

-- A write to the rows of one path by a function that leaves the path alone.
module _ (f : UserState → UserState) (keeps : (r : UserState) → (f r).path ≡ r.path) where
  pub Node-map_where_self :
      (rows : Rows) (p : Str) (r : UserState)
      → Node rows p r
      → Node (map_where (has_path p) f rows) p (f r)
  Node-map_where_self rows p r h =
      select-map_where_self f (has_path p) rows (λ x. ap (λ s. list_eq s p) (keeps x))
      ∙ ap (map f) h

  pub Node-map_where_ne :
      (rows : Rows) (p q : Str) (r : UserState)
      → q ≢ p
      → Node rows q r
      → Node (map_where (has_path p) f rows) q r
  Node-map_where_ne rows p q r ne h =
      select-map_where_ne f (has_path p) (has_path q) rows (λ x. ap (λ s. list_eq s q) (keeps x))
        (λ x e. has_path_ne p q x ne e)
      ∙ h

-- The bytes that a hash column holds.
abbrev pub bytes_of : Str → ByteArray
bytes_of s = elim (hex_to_byte_array s) [ ok b ↦ b | err e ↦ [] | panic ↦ [] ]

-- The column is the printed form of a 32-byte array.
pub record IsHash (s : Str) : Type 0 where
  pub array : IsByteArray (bytes_of s)
  pub printed : s ≡ to_string (bytes_of s)

pub IsHash-reads : (s : Str) → IsHash s → hex_to_byte_array s ≡ ok (bytes_of s)
IsHash-reads s h = ap hex_to_byte_array h.printed ∙ hex_to_byte_array-to_string (bytes_of s) h.array

pub bytes_of-to_string : (b : ByteArray) → IsByteArray b → bytes_of (to_string b) ≡ b
bytes_of-to_string b h = rw (hex_to_byte_array-to_string b h, bytes_of)

pub to_string-IsHash : (b : ByteArray) → IsByteArray b → IsHash (to_string b)
to_string-IsHash b h =
    let e : bytes_of (to_string b) ≡ b = bytes_of-to_string b h in
    record { array = rw e h; printed = ap to_string (sym e) }

pub hash_to_byte_array-IsHash :
    (acc : UserState) → IsHash acc.hash → hash_to_byte_array acc ≡ ok (bytes_of acc.hash)
unfolding hash_to_byte_array
hash_to_byte_array-IsHash acc h = rw (IsHash-reads acc.hash h, hash_to_byte_array)

-- The hash column of the parent of two nodes with these hash columns: the hash of the concatenation
-- of the left child's bytes and the right child's.
abbrev pub join : Crypto → Str → Str → Str
join K l r = to_string (K.keccak256 (bytes_of l ++ bytes_of r))

pub join-IsHash : (K : Crypto) (l r : Str) → IsHash (join K l r)
join-IsHash K l r =
    to_string-IsHash (K.keccak256 (bytes_of l ++ bytes_of r))
      (K.keccak256-IsByteArray (bytes_of l ++ bytes_of r))

pub get_parent-join :
    (K : Crypto) (l r : Str)
    → IsHash l
    → IsHash r
    → get_parent K (bytes_of l) (bytes_of r) ≡ ok (K.keccak256 (bytes_of l ++ bytes_of r))
get_parent-join K l r hl hr = get_parent_lem K (bytes_of l) (bytes_of r) hl.array hr.array
