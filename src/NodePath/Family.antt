-- ===== src/NodePath/Family.antt =====
-- core/utils.go: parents and siblings.
use reddit_commander.Prelude.{
  ℕ, suc, ◌+◌, ◌-◌, ◌<◌, ◌≡◌, ◌≢◌, refl, ap, sym, ◌∙◌, inl, inr, [], ◌∷◌, ◌++◌, arith, All-append,
  length, length-append, get_elem?, set, ok, some, ◌==◌, if◌then◌else◌, lt→ltb, snoc_cases,
}
use reddit_commander.Bytes.{Str}
use reddit_commander.NodePath.{
  IsBit, IsBits, bit_0, bit_1, get_parent_path, get_nth_bit_from_right, flip_bit_in_string,
  get_other_child,
}

-- The other bit.
abbrev pub flip : ℕ → ℕ
flip c = if c == bit_0 then bit_1 else bit_0

-- The bit as `GetNthBitFromRight` reports it.
abbrev pub bit_number : ℕ → ℕ
bit_number c = if c == bit_0 then 0 else 1

pub get_parent_path-snoc : (p : Str) (c : ℕ) → get_parent_path (p ++ c ∷ []) ≡ p
unfolding get_parent_path
get_parent_path-snoc [] c = refl
get_parent_path-snoc (x ∷ []) c = refl
get_parent_path-snoc (x ∷ y ∷ p) c = ap (λ s. x ∷ s) (get_parent_path-snoc (y ∷ p) c)

pub snoc_injective : (p q : Str) (a b : ℕ) → p ++ a ∷ [] ≡ q ++ b ∷ [] → p ≡ q
snoc_injective p q a b e =
    sym (get_parent_path-snoc p a) ∙ ap get_parent_path e ∙ get_parent_path-snoc q b

get_elem?-middle : (p : Str) (c : ℕ) (r : Str) → get_elem? (p ++ c ∷ r) (length p) ≡ some c
get_elem?-middle [] c r = refl
get_elem?-middle (x ∷ p) c r = get_elem?-middle p c r

set-middle : (p : Str) (c d : ℕ) (r : Str) → set (p ++ c ∷ r) (length p) d ≡ p ++ d ∷ r
set-middle [] c d r = refl
set-middle (x ∷ p) c d r = ap (λ s. x ∷ s) (set-middle p c d r)

flip_bit-middle :
    (p : Str) (c : ℕ) (r : Str) → flip_bit_in_string (p ++ c ∷ r) (length p) ≡ ok (p ++ flip c ∷ r)
unfolding flip_bit_in_string
flip_bit-middle p c r = rw (get_elem?-middle p c r) (ap ok (set-middle p c (flip c) r))

pub get_other_child-snoc : (p : Str) (c : ℕ) → get_other_child (p ++ c ∷ []) ≡ ok (p ++ flip c ∷ [])
unfolding get_other_child
get_other_child-snoc [] c = flip_bit-middle [] c []
get_other_child-snoc (x ∷ p) c =
    let e : length (p ++ c ∷ []) ≡ suc (length p) = omega (arith, length-append p (c ∷ [])) in
    rw e (flip_bit-middle (x ∷ p) c [])

-- The bit that has `r` to its right.
pub get_nth_bit-middle :
    (p : Str) (c : ℕ) (r : Str) → get_nth_bit_from_right (p ++ c ∷ r) (length r) ≡ ok (bit_number c)
unfolding get_nth_bit_from_right
get_nth_bit-middle p c r =
    let len : length (p ++ c ∷ r) ≡ length p + suc (length r) = length-append p (c ∷ r) in
    let index : length (p ++ c ∷ r) - length r - 1 ≡ length p = omega (arith, len) in
    rw (lt→ltb (length r) (length (p ++ c ∷ r)) (omega (arith, len)), index, get_elem?-middle p c r)

pub IsBits-snoc : (s : Str) (c : ℕ) → IsBits (s ++ c ∷ []) → IsBits s × IsBit c
IsBits-snoc [] c h = (tt, h.0)
IsBits-snoc (d ∷ s) c h = ((h.0, (IsBits-snoc s c h.1).0), (IsBits-snoc s c h.1).1)

pub last_injective : (p : Str) (a b : ℕ) → p ++ a ∷ [] ≡ p ++ b ∷ [] → a ≡ b
last_injective [] a b e = cc
last_injective (x ∷ p) a b e = last_injective p a b (cc)

pub flip-IsBit : (c : ℕ) → IsBit (flip c)
flip-IsBit c = ground arith

pub flip_ne : (c : ℕ) → IsBit c → flip c ≢ c
flip_ne c h = ground arith

flip-flip : (c : ℕ) → IsBit c → flip (flip c) ≡ c
flip-flip c h = ground arith

abbrev Siblings : Str → Type 0
Siblings path =
    (other : Str) × (get_other_child path ≡ ok other)
    × IsBits other
    × (other ≢ path)
    × (length other ≡ length path)
    × (get_parent_path other ≡ get_parent_path path)
    × (get_other_child other ≡ ok path)

siblings : (p : Str) (c : ℕ) → IsBits p × IsBit c → Siblings (p ++ c ∷ [])
siblings p c (bits, bit) = (
  p ++ flip c ∷ [],
  get_other_child-snoc p c,
  All-append IsBit p (flip c ∷ []) bits (flip-IsBit c, tt),
  λ e. flip_ne c bit (last_injective p (flip c) c e),
  omega (arith, length-append p (flip c ∷ []), length-append p (c ∷ [])),
  get_parent_path-snoc p (flip c) ∙ sym (get_parent_path-snoc p c),
  get_other_child-snoc p (flip c) ∙ ap (λ d. ok (p ++ d ∷ [])) (flip-flip c bit),
)

-- On every path of one or more bits `GetOtherChild` returns another path of the same length with the
-- same parent, and its other child is the first path again.
pub get_other_child-sibling :
    (path : Str)
    → IsBits path
    → 0 < length path
    → (other : Str) × (get_other_child path ≡ ok other)
      × IsBits other
      × (other ≢ path)
      × (length other ≡ length path)
      × (get_parent_path other ≡ get_parent_path path)
      × (get_other_child other ≡ ok path)
get_other_child-sibling path bits pos = elim (snoc_cases path) [
  | inl empty ↦ absurd (omega (arith, ap length empty))
  | inr (p, c, split) ↦ rw split (siblings p c (IsBits-snoc p c (rw split at bits)))
]
