-- ===== src/NodePath/Spine.antt =====
-- core/utils.go: the path from a leaf to the root. A path is written here from its end: `from_leaf`
-- turns the bits round, so that the parent of a node drops the first bit.
use reddit_commander.Prelude.{
  ℕ, zero, suc, ◌<◌, ◌≡◌, ◌≢◌, ◌⊎◌, refl, ap, sym, ◌∙◌, inl, inr, List, [], ◌∷◌, ◌++◌, arith,
  length, length-append, All-append, list_eq, list_eq→eq, list_eq_refl, Bool-cases, false,
  snoc_cases,
}
use reddit_commander.Bytes.{Str}
use reddit_commander.NodePath.{IsBit, IsBits}
use reddit_commander.NodePath.Family.{snoc_injective, last_injective, IsBits-snoc}

abbrev pub from_leaf : List ℕ → Str
from_leaf [] = []
from_leaf (b ∷ bits) = from_leaf bits ++ b ∷ []

pub length-from_leaf : (bits : List ℕ) → length (from_leaf bits) ≡ length bits
length-from_leaf [] = refl
length-from_leaf (b ∷ bits) =
    omega (arith, length-append (from_leaf bits) (b ∷ []), length-from_leaf bits)

pub from_leaf-IsBits : (bits : List ℕ) → IsBits bits → IsBits (from_leaf bits)
from_leaf-IsBits [] h = tt
from_leaf-IsBits (b ∷ bits) h =
    All-append IsBit (from_leaf bits) (b ∷ []) (from_leaf-IsBits bits h.1) (h.0, tt)

-- A node that is not on the way from the leaf to the root.
abbrev pub Off : Str → List ℕ → Type 0
Off q [] = q ≢ []
Off q (b ∷ bits) = (q ≢ from_leaf (b ∷ bits)) × Off q bits

-- A proper ancestor of the leaf.
abbrev pub Ancestor : Str → List ℕ → Type 0
Ancestor q [] = ⊥
Ancestor q (b ∷ bits) = (q ≡ from_leaf bits) ⊎ Ancestor q bits

pub Off-longer : (q : Str) (bits : List ℕ) → length bits < length q → Off q bits
Off-longer [] bits h = absurd (omega arith)
Off-longer (x ∷ q) [] h = λ e. cc
Off-longer (x ∷ q) (b ∷ bits) h = (
  λ e. omega (arith, ap length e, length-from_leaf (b ∷ bits)),
  Off-longer (x ∷ q) bits (omega arith),
)

pub Off-ne : (q : Str) (bits : List ℕ) → Off q bits → q ≢ from_leaf bits
Off-ne q [] h = h
Off-ne q (b ∷ bits) h = h.0

pub sibling-Off :
    (b : ℕ) (bits : List ℕ) (c : ℕ) → c ≢ b → Off (from_leaf bits ++ c ∷ []) (b ∷ bits)
sibling-Off b bits c ne = (
  λ e. ne (last_injective (from_leaf bits) c b e),
  Off-longer (from_leaf bits ++ c ∷ []) bits
      (omega (arith, length-append (from_leaf bits) (c ∷ []), length-from_leaf bits)),
)

-- A child of a node off the way is off it too.
pub Off-child : (q : Str) (c : ℕ) (bits : List ℕ) → Off q bits → Off (q ++ c ∷ []) bits
Off-child q c [] h = λ e. omega (arith, ap length e, length-append q (c ∷ []))
Off-child q c (b ∷ bits) h =
    (λ e. Off-ne q bits h.1 (snoc_injective q (from_leaf bits) c b e), Off-child q c bits h.1)

pub not_same : (p q : Str) → list_eq p q ≡ false → p ≢ q
not_same p q h e = cc (list_eq_refl q, ap (λ s. list_eq s q) e)

-- Every node is off the way, the leaf, or an ancestor of it.
pub Off-cases : (q : Str) (bits : List ℕ) → Off q bits ⊎ (q ≡ from_leaf bits) ⊎ Ancestor q bits
Off-cases q [] = elim (Bool-cases (list_eq q [])) [
  | inl same ↦ inr (inl (list_eq→eq q [] same))
  | inr other ↦ inl (not_same q [] other)
]
Off-cases q (b ∷ bits) = elim (Bool-cases (list_eq q (from_leaf (b ∷ bits)))) [
  | inl same ↦ inr (inl (list_eq→eq q (from_leaf (b ∷ bits)) same))
  | inr other ↦ elim (Off-cases q bits) [
    | inl off ↦ inl (not_same q (from_leaf (b ∷ bits)) other, off)
    | inr (inl parent) ↦ inr (inr (inl parent))
    | inr (inr above) ↦ inr (inr (inr above))
  ]
]

from_leaf_snoc :
    (path s : Str) (c : ℕ)
    → path ≡ s ++ c ∷ []
    → IsBit c
    → (bits : List ℕ) × IsBits bits × (from_leaf bits ≡ s)
    → (bits : List ℕ) × IsBits bits × (from_leaf bits ≡ path)
from_leaf_snoc path s c e bit (bits, ok_bits, same) =
    (c ∷ bits, (bit, ok_bits), ap (λ t. t ++ c ∷ []) same ∙ sym e)

from_leaf-length :
    (n : ℕ) (path : Str)
    → length path ≡ n
    → IsBits path
    → (bits : List ℕ) × IsBits bits × (from_leaf bits ≡ path)
from_leaf-length zero [] e h = ([], tt, refl)
from_leaf-length zero (c ∷ path) e h = absurd (omega arith)
from_leaf-length (suc n) path e h = elim (snoc_cases path) [
  | inl empty ↦ absurd (omega (arith, ap length empty))
  | inr (s, c, split) ↦
      let parts : IsBits s × IsBit c = IsBits-snoc s c (rw split at h) in
      from_leaf_snoc path s c split parts.1
        (from_leaf-length n s (omega (arith, length-append s (c ∷ []), ap length split)) parts.0)
]

-- The bits of a path from its end.
pub from_leaf_onto :
    (path : Str) → IsBits path → (bits : List ℕ) × IsBits bits × (from_leaf bits ≡ path)
from_leaf_onto path h = from_leaf-length (length path) path refl h
