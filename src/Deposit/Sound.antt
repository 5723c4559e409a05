-- ===== src/Deposit/Sound.antt =====
-- core/DepositTree.go: the rows of a state tree and of the deposits that wait to enter it.
use reddit_commander.Prelude.{
  ℕ, ◌≡◌, ◌⊎◌, refl, sym, ◌∙◌, subst, Bool, true, false, ◌&&◌, Bool-cases, inl, inr, List, [], ◌∷◌,
  ◌++◌, map, length, All, All-append, All-imp, select, arith, ◌==◌, list_eq→eq, if◌then◌else◌,
}
use reddit_commander.Bytes.{Str}
use reddit_commander.Constants.{uninitialized_path, status_pending, type_terminal}
use reddit_commander.NodePath.{IsBit, IsBits}
use reddit_commander.Merkle.{Crypto}
use reddit_commander.Gorm.Select.{select-select, All-select}
use reddit_commander.State.{UserState, has_path}
use reddit_commander.State.Rows.{Rows, Node}
use reddit_commander.State.Spine.{IsTree}
use reddit_commander.State.Put.{Joined}
use reddit_commander.State.Update.{IsMerkle}
use reddit_commander.State.Skeleton.{skeleton}

-- A pending row has no place in the tree yet, and a terminal row is pending or a leaf.
pub record Placed (d : ℕ) (r : UserState) : Type 0 where
  pub waiting : r.status ≡ status_pending → r.path ≡ uninitialized_path
  pub terminal :
      r.node_type ≡ type_terminal
      → (r.path ≡ uninitialized_path) ⊎ (IsBits r.path × (length r.path ≡ d))

-- A full tree of depth `d` whose inner nodes join their children, and the deposits beside it.
pub record Sound (K : Crypto) (d : ℕ) (rows : Rows) : Type 0 where
  pub tree : IsTree d rows
  pub merkle : IsMerkle K d rows
  pub placed : All (Placed d) rows

Placed-skeleton : (d : ℕ) (r : UserState) → Placed d r → Placed d (skeleton r)
Placed-skeleton d r p = record { waiting = p.waiting; terminal = p.terminal }

skeleton-Placed : (d : ℕ) (r : UserState) → Placed d (skeleton r) → Placed d r
skeleton-Placed d r p = record { waiting = p.waiting; terminal = p.terminal }

pub All-map {ℓ κ ι} :
    {A : Type ℓ} {B : Type κ} (P : B → Type ι) (f : A → B) (xs : List A)
    → All (λ x. P (f x)) xs
    → All P (map f xs)
All-map P f [] h = tt
All-map P f (x ∷ xs) h = (h.0, All-map P f xs h.1)

pub map-All {ℓ κ ι} :
    {A : Type ℓ} {B : Type κ} (P : B → Type ι) (f : A → B) (xs : List A)
    → All P (map f xs)
    → All (λ x. P (f x)) xs
map-All P f [] h = tt
map-All P f (x ∷ xs) h = (h.0, map-All P f xs h.1)

-- Rows with the same columns but for data and hash are placed alike.
pub Placed-same :
    (d : ℕ) (rows rows' : Rows)
    → map skeleton rows' ≡ map skeleton rows
    → All (Placed d) rows
    → All (Placed d) rows'
Placed-same d rows rows' same h = All-imp rows' (skeleton-Placed d) (
    map-All (Placed d) skeleton rows' (
      subst (All (Placed d)) (sym same)
        (All-map (Placed d) skeleton rows (All-imp rows (Placed-skeleton d) h))))

pub not_IsBits : ¬ IsBits uninitialized_path
not_IsBits (inl e, h) = omega (arith, e)
not_IsBits (inr e, h) = omega (arith, e)

-- The rows that the deletion of a pending account removes.
abbrev pub is_waiting : ℕ → UserState → Bool
is_waiting id row = row.account_id == id && row.status == status_pending

abbrev pub stays : ℕ → UserState → Bool
stays id row = if is_waiting id row then false else true

is_waiting-status :
    (id : ℕ) (row : UserState) → is_waiting id row ≡ true → row.status ≡ status_pending
is_waiting-status id row h = ground (arith, h)

node-stays :
    (d id : ℕ) (q : Str) (row : UserState)
    → IsBits q
    → Placed d row
    → has_path q row ≡ true
    → stays id row ≡ true
node-stays d id q row bits p at = elim (Bool-cases (is_waiting id row)) [
  | inl e ↦ absurd (
      not_IsBits (
        subst IsBits (sym (list_eq→eq row.path q at) ∙ p.waiting (is_waiting-status id row e))
          bits))
  | inr e ↦ rw e refl
]

-- A deletion of pending rows does not touch the nodes of the tree.
delete-node :
    (d id : ℕ) (q : Str) (rows : Rows)
    → IsBits q
    → All (Placed d) rows
    → select (has_path q) (select (stays id) rows) ≡ select (has_path q) rows
delete-node d id q rows bits placed =
    select-select (has_path q) (stays id) rows
      (All-imp rows (λ row p at. node-stays d id q row bits p at) placed)

child-IsBits : (q : Str) (c : ℕ) → IsBits q → IsBit c → IsBits (q ++ c ∷ [])
child-IsBits q c bits bit = All-append IsBit q (c ∷ []) bits (bit, tt)

-- A change that no query for a node of the tree sees.
pub Sound-nodes :
    (K : Crypto) (d : ℕ) (rows rows' : Rows)
    → ((q : Str) → IsBits q → select (has_path q) rows' ≡ select (has_path q) rows)
    → All (Placed d) rows'
    → Sound K d rows
    → Sound K d rows'
Sound-nodes K d rows rows' same placed sound = record {
  tree = λ q bits le. let (r, node, hash) = sound.tree q bits le in (r, same q bits ∙ node, hash);
  merkle = λ q bits short.
      let j : Joined K rows q = sound.merkle q bits short in
      record {
        node = j.node;
        left = j.left;
        right = j.right;
        at = same q bits ∙ j.at;
        at_left = same (q ++ 48 ∷ []) (child-IsBits q 48 bits (inl refl)) ∙ j.at_left;
        at_right = same (q ++ 49 ∷ []) (child-IsBits q 49 bits (inr refl)) ∙ j.at_right;
        joins = j.joins;
      };
  placed = placed;
}

pub Sound-delete :
    (K : Crypto) (d id : ℕ) (rows : Rows) → Sound K d rows → Sound K d (select (stays id) rows)
Sound-delete K d id rows sound =
    Sound-nodes K d rows (select (stays id) rows)
      (λ q bits. delete-node d id q rows bits sound.placed)
      (All-select (Placed d) (stays id) rows sound.placed) sound

pub Node-delete :
    (K : Crypto) (d id : ℕ) (q : Str) (rows : Rows) (r : UserState)
    → Sound K d rows
    → IsBits q
    → Node rows q r
    → Node (select (stays id) rows) q r
Node-delete K d id q rows r sound bits node = delete-node d id q rows bits sound.placed ∙ node
